-- ===== src/Readiness.antt =====
-- src/ss_contracts/tooling/gen/checker.py: whether a contract has the hints that a format needs.
-- A name that is looked for in what is neither a list, a text nor a mapping is a TypeError: none.
pub mod Formats
pub mod Numbers
pub mod Laws
mod Tests
use ss_common.Prelude.{
  starts, ℕ, Bool, true, false, not, ◌&&◌, ◌||◌, Option, none, some, List, [], ◌∷◌, ◌++◌, Text,
  codes, ◌==◌, list_eq, nat_eq, option_eq, contains, leb, ltb, is_empty, is_some, all,
  if◌then◌else◌, lookup, Dict,
}
use ss_common.Value.{
  keys_of, ℤ, pos, negsuc, Value, null, bool, int, str, list, mapping, other, Members, end, find,
  get, items, Items,
}
use ss_common.Contract.{FieldHead, FieldSpec, FieldSpecs, field_spec, ContractSpec}

pub data NumberFinding : Type 0 where
  missing : (name : Text) → NumberFinding
  outside : (name : Text) → ℤ → NumberFinding
  used_twice : (name : Text) → ℕ → NumberFinding
  reserved_number : (name : Text) → ℕ → NumberFinding
  reserved_name : (name : Text) → NumberFinding
  in_record : (name : Text) → NumberFinding → NumberFinding

abbrev pub max_field_number : ℕ
max_field_number = 536870911

abbrev pub is_usable : ℕ → Bool
is_usable n = leb 1 n && leb n max_field_number && not (leb 19000 n && ltb n 20000)

abbrev pub holds : List ℤ → ℕ → Bool
holds [] n = false
holds (pos m ∷ ms) n = n == m || holds ms n
holds (negsuc m ∷ ms) n = holds ms n

-- `_field_number_error`: its message, and the number that it adds to `used`.
unfoldable pub field_number_error : Text → Value → List ℕ → List ℤ → List NumberFinding × List ℕ
field_number_error name (int (negsuc n)) used reserved = (outside name (negsuc n) ∷ [], used)
field_number_error name (int (pos n)) used reserved =
    if not (is_usable n)
    then (outside name (pos n) ∷ [], used)
    else if contains used n
    then (used_twice name n ∷ [], used)
    else if holds reserved n
    then (reserved_number name n ∷ [], used)
    else ([], n ∷ used)
field_number_error name _ used reserved = (missing name ∷ [], used)

abbrev pub strings : List Value → List Text
strings [] = []
strings (str s ∷ vs) = s ∷ strings vs
strings (_ ∷ vs) = strings vs

-- `name in text`.
unfoldable pub occurs : Text → Text → Bool
occurs name [] = is_empty name
occurs name (c ∷ s) = starts name (c ∷ s) || occurs name s

-- `name in reserved_names`.
unfoldable pub name_in : Text → Value → Option Bool
name_in name (list vs) = some (contains (strings (items vs)) name)
name_in name (mapping m) = some (contains (keys_of m) name)
name_in name (str s) = some (occurs name s)
name_in name _ = none

-- `FieldSpec.is_record`.
abbrev pub is_record : FieldHead → Bool
is_record h = h.kind == codes "record" || h.item_kind == some (codes "record")

-- `fld.generation.get("proto", {}).get("fieldNumber")`.
abbrev pub field_number : FieldHead → Value
field_number h = elim (lookup (codes "proto") h.generation) [
  | none ↦ null
  | some hints ↦ get (codes "fieldNumber") hints
]

abbrev pub name_errors : Text → Option Bool → Option (List NumberFinding)
name_errors name none = none
name_errors name (some true) = some (reserved_name name ∷ [])
name_errors name (some false) = some []

-- What two steps find, where neither raises.
abbrev pub joined : {A : Type 0} → Option (List A) → Option (List A) → Option (List A)
joined none _ = none
joined (some xs) none = none
joined (some xs) (some ys) = some (xs ++ ys)

abbrev pub within : Text → List NumberFinding → List NumberFinding
within name [] = []
within name (f ∷ fs) = in_record name f ∷ within name fs

abbrev pub nested : Bool → Text → Option (List NumberFinding) → Option (List NumberFinding)
nested false name found = some []
nested true name none = none
nested true name (some fs) = some (within name fs)

-- The round of the loop without the fields of a record.
abbrev pub own_errors : FieldHead → List ℕ → List ℤ → Value → Option (List NumberFinding)
own_errors h used reserved names =
    joined (some (field_number_error h.name (field_number h) used reserved).0)
      (name_errors h.name (name_in h.name names))

unfoldable mutual
  pub field_errors : FieldSpec → List ℕ → List ℤ → Value → Option (List NumberFinding)
  field_errors (field_spec h fs) used reserved names =
      joined (own_errors h used reserved names)
        (nested (is_record h) h.name (field_numbers_errors fs [] [] (list Items.nil)))

  -- `_field_numbers_errors`, for the numbers that the fields before have.
  pub field_numbers_errors : FieldSpecs → List ℕ → List ℤ → Value → Option (List NumberFinding)
  field_numbers_errors FieldSpecs.nil used reserved names = some []
  field_numbers_errors (FieldSpecs.cons f fs) used reserved names =
      joined (field_errors f used reserved names)
        (field_numbers_errors fs (used_after f used reserved) reserved names)

  pub used_after : FieldSpec → List ℕ → List ℤ → List ℕ
  used_after (field_spec h fs) used reserved =
      (field_number_error h.name (field_number h) used reserved).1
