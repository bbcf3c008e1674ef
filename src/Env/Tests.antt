-- ===== src/Env/Tests.antt =====
-- Sample environment files, and the theorems at them.
use ss_common.Prelude.{
  ℕ, zero, suc, ◌≡◌, Distinct, keys, refl, Option, none, some, [], ◌∷◌, Text, codes, ◌==◌, nat_eq,
  list_eq, Dict, lookup, insert, strip, lstrip, rstrip, starts, is_space,
}
use ss_common.Result.{ok}
use ss_common.Env.{
  EnvValues, unescaped, taken_by, left_by, up_to, reference, substituted, expand_from, quoted_from,
  rest_of_line, line_of, without_newlines, without_comment, unquoted, value,
}
use ss_common.Env.Lines.{
  name_at, exported, key_at, assigned, keyed, line_values, parse_lines, parse_env_text,
}
use ss_common.Env.Layers.{
  Applied, update, all_filled, apply_one, apply, read_env_file, merge, load_env_files,
}
use ss_common.Env.Merged.{kept_or_set, only_set, load_env_files-lookup}
use ss_common.Env.Files.{written_all, all_some, AllWritable, parse_env_text-written_all}

abbrev two_values : Dict Text Text
two_values = (codes "NAME", codes "a \"b\" \\") ∷ (codes "exported", []) ∷ []

two_values-AllWritable : AllWritable two_values
unfolding ◌==◌ nat_eq
two_values-AllWritable = (refl, refl, (refl, refl, tt))

two_values-Distinct : Distinct (keys two_values)
unfolding ◌==◌ list_eq nat_eq
two_values-Distinct = (refl, (refl, tt))

parse_env_text-written_all_example :
    parse_env_text [] (written_all two_values) ≡ ok (all_some two_values)
parse_env_text-written_all_example =
    parse_env_text-written_all [] two_values two_values-AllWritable two_values-Distinct

abbrev base : Text
base = codes "# base\nexport HOST=local # here\nBARE\nURL=\"${HOST}:${PORT:-80}\"\nRAW='${HOST}'\n"

parsed_base :
    parse_env_text [] base
    ≡ ok (
        (codes "HOST", some (codes "local"))
        ∷ (codes "BARE", none)
        ∷ (codes "URL", some (codes "local:80"))
        ∷ (codes "RAW", some (codes "${HOST}"))
        ∷ [])
unfolding unescaped taken_by left_by up_to reference substituted expand_from quoted_from
    rest_of_line line_of without_newlines without_comment unquoted value name_at exported key_at
    assigned keyed line_values parse_lines lookup insert strip lstrip rstrip starts is_space ◌==◌
    nat_eq list_eq
parsed_base = refl

-- The first path is the base file, the second one is absent, and the third one sets the port.
abbrev text_of : ℕ → Option Text
text_of zero = some base
text_of (suc zero) = none
text_of (suc (suc n)) = some (codes "PORT=1\nHOST=other\n")

abbrev environ : Dict Text Text
environ = (codes "HOST", codes "prod") ∷ []

abbrev loaded : Applied
loaded = record {
  env =
      (codes "HOST", codes "prod")
      ∷ (codes "BARE", [])
      ∷ (codes "URL", codes "local:80")
      ∷ (codes "RAW", codes "${HOST}")
      ∷ (codes "PORT", codes "1")
      ∷ [];
  applied =
      (codes "BARE", [])
      ∷ (codes "URL", codes "local:80")
      ∷ (codes "RAW", codes "${HOST}")
      ∷ (codes "PORT", codes "1")
      ∷ [];
}

is_loaded : load_env_files text_of (0 ∷ 1 ∷ 2 ∷ []) environ ≡ ok loaded
unfolding unescaped taken_by left_by up_to reference substituted expand_from quoted_from
    rest_of_line line_of without_newlines without_comment unquoted value name_at exported key_at
    assigned keyed line_values parse_lines lookup insert strip lstrip rstrip starts is_space ◌==◌
    nat_eq list_eq update all_filled apply_one apply read_env_file merge load_env_files
is_loaded = refl

load_env_files-lookup_example :
    (merged : EnvValues) × (merge text_of environ [] (0 ∷ 1 ∷ 2 ∷ []) ≡ ok merged)
    × ((k : Text)
        → (lookup k loaded.env ≡ kept_or_set (lookup k environ) (lookup k merged))
          × (lookup k loaded.applied ≡ only_set (lookup k environ) (lookup k merged) none))
load_env_files-lookup_example =
    load_env_files-lookup text_of (0 ∷ 1 ∷ 2 ∷ []) environ loaded is_loaded
