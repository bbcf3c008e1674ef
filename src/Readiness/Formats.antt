-- ===== src/Readiness/Formats.antt =====
-- src/ss_contracts/tooling/gen/checker.py: the hints of each format.
use ss_common.Prelude.{
  ℕ, Bool, true, false, not, ◌&&◌, ◌||◌, Option, none, some, List, [], ◌∷◌, ◌++◌, map, Text, codes,
  ◌==◌, list_eq, nat_eq, all, if◌then◌else◌, lookup, is_upper, is_lower, is_digit, split, and_then,
  is_some,
}
use ss_common.Regex.{headed, is_name_char}
use ss_common.Value.{is_true, ℤ, Value, null, int, str, list, Members, end, find, get, items, Items}
use ss_common.Contract.{FieldSpecs, field_spec, ContractSpec}
use ss_common.Readiness.{NumberFinding, is_record, field_numbers_errors}

pub data Format : Type 0 where
  pydantic jsonschema avro proto parquet : Format

pub data HintFinding : Type 0 where
  bad_hint : (key : Text) → HintFinding
  bad_go_package bad_reserved bad_reserved_names : HintFinding
  record_name_taken : (field key : Text) → HintFinding
  number : NumberFinding → HintFinding

abbrev is_alnum : ℕ → Bool
is_alnum c = is_lower c || is_upper c || is_digit c

-- `^[first][class]*(\.[first][class]*)*$`, over what stands between the dots.
unfoldable pub dotted : (ℕ → Bool) → (ℕ → Bool) → List Text → Bool
dotted first class [] = false
dotted first class (p ∷ []) = headed first class p
dotted first class ([] ∷ q ∷ ps) = false
dotted first class ((c ∷ s) ∷ q ∷ ps) = first c && all class s && dotted first class (q ∷ ps)

abbrev pub is_type_name : Text → Bool
is_type_name s = headed is_upper is_alnum s

abbrev pub is_avro_namespace : Text → Bool
is_avro_namespace s =
    dotted (λ c. is_lower c || is_upper c || c == b'_') (λ c. is_alnum c || c == b'_')
      (split b'.' s)

abbrev pub is_proto_package : Text → Bool
is_proto_package s = dotted is_lower is_name_char (split b'.' s)

-- `_require`.
unfoldable pub require : Text → (Text → Bool) → Value → List HintFinding
require key pattern (str s) = if pattern s then [] else bad_hint key ∷ []
require key pattern _ = bad_hint key ∷ []

-- `ContractSpec.generation_hints`.
abbrev pub generation_hints : ContractSpec → Text → Members
generation_hints spec fmt = elim (lookup fmt spec.generation) [ none ↦ end | some hints ↦ hints ]

-- `fld.record_name == type_name`; both are None where the hint and the name are absent.
abbrev pub equals_name : Option Text → Value → Bool
equals_name none null = true
equals_name (some n) (str s) = n == s
equals_name _ _ = false

-- `_collision_errors`.
unfoldable pub collision_errors : Value → Text → FieldSpecs → List HintFinding
collision_errors type_name key FieldSpecs.nil = []
collision_errors type_name key (FieldSpecs.cons (field_spec h sub) fs) =
    let rest = collision_errors type_name key fs in
    if is_record h && equals_name h.record_name type_name
    then record_name_taken h.name key ∷ rest
    else rest

unfoldable pub pydantic_errors : ContractSpec → List HintFinding
pydantic_errors spec =
    let type_name = get (codes "className") (generation_hints spec (codes "pydantic")) in
    require (codes "className") is_type_name type_name
    ++ collision_errors type_name (codes "className") spec.fields

unfoldable pub avro_errors : ContractSpec → List HintFinding
avro_errors spec =
    let hints = generation_hints spec (codes "avro") in
    require (codes "namespace") is_avro_namespace (get (codes "namespace") hints)
    ++ require (codes "recordName") is_type_name (get (codes "recordName") hints)
    ++ collision_errors (get (codes "recordName") hints) (codes "recordName") spec.fields

unfoldable pub ints : List Value → Option (List ℤ)
ints [] = some []
ints (int n ∷ vs) = and_then (ints vs) (λ ns. some (n ∷ ns))
ints (_ ∷ vs) = none

-- `_int_list`.
abbrev pub int_list : Value → Option (List ℤ)
int_list null = some []
int_list (list vs) = ints (items vs)
int_list _ = none

abbrev all_strings : List Value → Bool
all_strings [] = true
all_strings (str s ∷ vs) = all_strings vs
all_strings (_ ∷ vs) = false

-- `names = hints.get("reservedNames", [])` is not a list of names.
abbrev pub bad_names : Option Value → Bool
bad_names none = false
bad_names (some (list vs)) = not (all_strings (items vs))
bad_names (some _) = true

-- `"goPackage" in hints` and it is not a string.
abbrev pub bad_package : Option Value → Bool
bad_package none = false
bad_package (some (str s)) = false
bad_package (some _) = true

-- `_proto_message_errors`.
unfoldable pub proto_message_errors : Members → List HintFinding
proto_message_errors hints =
    require (codes "package") is_proto_package (get (codes "package") hints)
    ++ require (codes "messageName") is_type_name (get (codes "messageName") hints)
    ++ (if bad_package (find (codes "goPackage") hints) then bad_go_package ∷ [] else [])
    ++ (if not (is_some (int_list (get (codes "reserved") hints))) then bad_reserved ∷ [] else [])
    ++ (if bad_names (find (codes "reservedNames") hints) then bad_reserved_names ∷ [] else [])

-- `_int_list(...) or []`.
abbrev pub reserved_of : Option (List ℤ) → List ℤ
reserved_of none = []
reserved_of (some ns) = ns

-- `value or []`
abbrev pub names_or_none : Value → Value
names_or_none v = if is_true v then v else list Items.nil

-- `_proto_errors`.
unfoldable pub proto_errors : ContractSpec → Option (List HintFinding)
proto_errors spec =
    let hints = generation_hints spec (codes "proto") in
    and_then
      (field_numbers_errors spec.fields [] (reserved_of (int_list (get (codes "reserved") hints)))
        (names_or_none (get (codes "reservedNames") hints)))
      (λ found. some (
        proto_message_errors hints
        ++ map HintFinding.number found
        ++ collision_errors (get (codes "messageName") hints) (codes "messageName") spec.fields))

-- `generation_errors`.
unfoldable pub generation_errors : ContractSpec → Format → Option (List HintFinding)
generation_errors spec pydantic = some (pydantic_errors spec)
generation_errors spec jsonschema = some (pydantic_errors spec)
generation_errors spec avro = some (avro_errors spec)
generation_errors spec proto = proto_errors spec
generation_errors spec parquet = some []
