-- ===== src/Types.antt =====
-- src/ss_contracts/tooling/types.py: logical types, physical kinds and what may carry what.
use ss_common.Prelude.{
  Bool, none, some, List, [], ◌∷◌, ◌++◌, Text, codes, list_eq, nat_eq, contains, Dict, lookup,
}

abbrev pub logical_to_kinds : Dict Text (List Text)
logical_to_kinds =
    (codes "string", codes "string" ∷ codes "bytes" ∷ [])
    ∷ (codes "integer", codes "int" ∷ codes "long" ∷ [])
    ∷ (codes "number", codes "float" ∷ codes "double" ∷ [])
    ∷ (codes "boolean", codes "boolean" ∷ [])
    ∷ (codes "timestamp", codes "timestamp" ∷ [])
    ∷ (codes "date", codes "date" ∷ [])
    ∷ (codes "object", codes "json" ∷ codes "record" ∷ [])
    ∷ (codes "array", codes "array" ∷ [])
    ∷ []

abbrev pub physical_aliases : Dict Text Text
physical_aliases = (codes "integer", codes "int") ∷ (codes "bool", codes "boolean") ∷ []

abbrev pub scalar_kinds : List Text
scalar_kinds =
    codes "string"
    ∷ codes "bytes"
    ∷ codes "int"
    ∷ codes "long"
    ∷ codes "float"
    ∷ codes "double"
    ∷ codes "boolean"
    ∷ codes "timestamp"
    ∷ codes "date"
    ∷ []

abbrev pub record_kind : Text
record_kind = codes "record"

abbrev pub json_kind : Text
json_kind = codes "json"

abbrev pub array_kind : Text
array_kind = codes "array"

abbrev pub item_kinds : List Text
item_kinds = scalar_kinds ++ json_kind ∷ record_kind ∷ []

abbrev pub numeric_kinds : List Text
numeric_kinds = codes "int" ∷ codes "long" ∷ codes "float" ∷ codes "double" ∷ []

unfoldable pub canonical_kind : Text → Text
canonical_kind physical_type = elim (lookup physical_type physical_aliases) [
  | none ↦ physical_type
  | some kind ↦ kind
]

abbrev pub kinds_of : Text → List Text
kinds_of logical_type = elim (lookup logical_type logical_to_kinds) [
  | none ↦ []
  | some kinds ↦ kinds
]

unfoldable pub kind_compatible : Text → Text → Bool
kind_compatible logical_type kind = contains (kinds_of logical_type) kind
