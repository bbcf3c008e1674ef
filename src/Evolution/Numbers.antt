-- ===== src/Evolution/Numbers.antt =====
-- src/ss_contracts/tooling/evolution_policy.py: proto field numbers over the history of a contract.
-- The source sorts the errors and drops repeated ones; here they stand in the order of discovery.
mod Carried
pub mod Laws
pub mod Fields
use ss_common.Prelude.{
  ℕ, ◌≡◌, Bool, true, false, Option, none, some, List, [], ◌∷◌, ◌++◌, Text, Eq, ◌==◌, list_eq,
  nat_eq, if◌then◌else◌, is_empty, Dict, lookup, insert,
}
use native.Mathlib.Decide.{ℕ_discrete}
use ss_common.Value.{ℤ}
use ss_common.Evolution.Snapshot.{
  FieldKeys, FieldSnapshot, FieldSnapshots, plain, record_of, end, field, Snapshot,
}

-- The message (an empty scope) or the record, and the number.
pub record Slot : Type 0 where
  pub scope : Text
  pub number : ℤ

Slot_discrete : Discrete Slot
Slot_discrete = hlevel ℕ_discrete

instance unfoldable pub slot_eq : Eq Slot
unfolding Slot_discrete
slot_eq = record { dec = Slot_discrete }

pub record Numbered : Type 0 where
  pub slot : Slot
  pub name : Text

abbrev pub own_number : Text → Text → Option ℤ → List Numbered
own_number scope name none = []
own_number scope name (some n) =
    record { slot = record { scope = scope; number = n }; name = name } ∷ []

-- `str(spec.get("recordName") or name)`.
abbrev pub record_scope : Text → Option Text → Text
record_scope name none = name
record_scope name (some r) = if is_empty r then name else r

unfoldable mutual
  pub numbered_field : Text → Text → FieldSnapshot → List Numbered
  numbered_field scope name (plain keys) = own_number scope name keys.proto_field_number
  numbered_field scope name (record_of keys fs) =
      own_number scope name keys.proto_field_number
      ++ numbered_fields (record_scope name keys.record_name) fs

  -- `_numbered_fields`.
  pub numbered_fields : Text → FieldSnapshots → List Numbered
  numbered_fields scope end = []
  numbered_fields scope (field name f fs) = numbered_field scope name f ++ numbered_fields scope fs

-- A numbered field of one version.
pub record Occurrence : Type 0 where
  pub version : Text
  pub field : Numbered

abbrev pub in_version : Text → List Numbered → List Occurrence
in_version version [] = []
in_version version (n ∷ ns) = record { version = version; field = n } ∷ in_version version ns

-- The rounds of the two loops of `proto_number_errors`.
unfoldable pub occurrences : List Snapshot → List Occurrence
occurrences [] = []
occurrences (s ∷ ss) = in_version s.version (numbered_fields [] s.fields) ++ occurrences ss

pub record NumberError : Type 0 where
  pub slot : Slot
  pub was : Text
  pub was_in : Text
  pub is : Text
  pub is_in : Text

abbrev pub Owners : Type 0
Owners = Dict Slot (Text × Text)

-- The body of the loops: `owners.setdefault`, and an error where another name owns the slot.
unfoldable pub check : Owners → List Occurrence → List NumberError
check owners [] = []
check owners (o ∷ os) = elim (lookup o.field.slot owners) [
  | none ↦ check (insert o.field.slot (o.field.name, o.version) owners) os
  | some (name, version) ↦
      (if name == o.field.name
        then []
        else record {
          slot = o.field.slot;
          was = name;
          was_in = version;
          is = o.field.name;
          is_in = o.version;
        }
          ∷ [])
      ++ check owners os
]

unfoldable pub proto_number_errors : List Snapshot → List NumberError
proto_number_errors snapshots = check [] (occurrences snapshots)
