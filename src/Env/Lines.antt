-- ===== src/Env/Lines.antt =====
-- src/ss_kit/env.py: `parse_env_text`, line by line.
use ss_common.Prelude.{
  ℕ, zero, suc, ◌-◌, Bool, true, false, ◌&&◌, ◌||◌, Option, none, some, [], ◌∷◌, Text, codes,
  nat_eq, list_eq, if◌then◌else◌, is_empty, length, strip, lstrip, starts, drop, Dict, insert,
}
use ss_common.Result.{Result, ok, err, ◌>>=◌}
use ss_common.Env.{
  EnvError, EnvValues, taken_by, left_by, is_blank, is_letter, is_key_char, expand_from,
  rest_of_line, line_of, value,
}

-- `([A-Za-z_][A-Za-z0-9_.-]*)[ \t]*`: the key, and what follows.
unfoldable pub name_at : Text → Option (Text × Text)
name_at [] = none
name_at (c ∷ s) =
    if is_letter c
    then some (c ∷ taken_by is_key_char s, left_by is_blank (left_by is_key_char s))
    else none

abbrev pub blank_first : Text → Bool
blank_first [] = false
blank_first (c ∷ s) = is_blank c

-- The key after `export`, where there is one.
unfoldable pub exported : Text → Option (Text × Text)
exported s =
    if starts (codes "export") s && blank_first (drop 6 s)
    then name_at (left_by is_blank (drop 6 s))
    else none

-- `_KEY_RE.match`
unfoldable pub key_at : Text → Option (Text × Text)
key_at s = elim (exported s) [ none ↦ name_at s | some found ↦ some found ]

module _ (environ : Dict Text Text) where
  -- What a line that assigns adds, and the text after it.
  unfoldable pub assigned :
      EnvValues → Text → Result EnvError (Text × Bool × Text) → Result EnvError (EnvValues × Text)
  assigned values key (err e) = err e
  assigned values key (ok (v, true, after)) =
      ok (insert key (some (expand_from values environ 0 v)) values, after)
  assigned values key (ok (v, false, after)) = ok (insert key (some v) values, after)

  unfoldable pub keyed :
      EnvValues → Text → Option (Text × Text) → Result EnvError (EnvValues × Text)
  keyed values next none = ok (values, next)
  keyed values next (some (key, after)) =
      if starts (codes "=") after
      then assigned values key (value (drop 1 after))
      else if is_empty (strip (line_of after))
      then ok (insert key none values, next)
      else ok (values, next)

  -- The body of the loop: the values, and the text that is left.
  unfoldable pub line_values : EnvValues → Text → Result EnvError (EnvValues × Text)
  line_values values s =
      let line = line_of s in
      if is_empty (strip line) || starts (codes "#") (strip line)
      then ok (values, rest_of_line s)
      else keyed values (rest_of_line s) (key_at (drop (length line - length (lstrip line)) s))

  -- The loop, with the characters that are still to be passed.
  unfoldable pub parse_lines : ℕ → EnvValues → Text → Result EnvError EnvValues
  parse_lines skip values [] = ok values
  parse_lines (suc skip) values (c ∷ s) = parse_lines skip values s
  parse_lines zero values (c ∷ s) = do
    (values', after) ← line_values values (c ∷ s)
    parse_lines (length s - length after) values' s

  -- `parse_env_text`
  abbrev pub parse_env_text : Text → Result EnvError EnvValues
  parse_env_text s = parse_lines 0 [] s
