-- ===== src/Evolution/Snapshot.antt =====
-- src/ss_contracts/tooling/evolution_policy.py: the snapshots of contracts, and change reports.
use ss_common.Prelude.{
  ℕ, Bool, true, false, Option, none, some, List, [], ◌∷◌, ◌++◌, Text, Dict, Eq, ltb, if◌then◌else◌,
  ◌==◌, list_eq, nat_eq,
}
use mathlib.Core.Option
use native.Mathlib.Decide.{ℕ_discrete}
use ss_common.Value.{ℤ, pos}

ℤ_discrete : Discrete ℤ
ℤ_discrete = hlevel ℕ_discrete

instance unfoldable pub int_eq : Eq ℤ
unfolding ℤ_discrete
int_eq = record { dec = ℤ_discrete }

-- The values that attributes and constraints take in JSON, up to Python's `==`: a Boolean is the int
-- 0 or 1, as is a float that equals an int; any other value is its text.
pub data Scalar : Type 0 where
  text : Text → Scalar
  number : ℤ → Scalar
  other : Text → Scalar

Scalar_discrete : Discrete Scalar
Scalar_discrete = hlevel ℕ_discrete

abbrev pub of_bool : Bool → Scalar
of_bool true = number (pos 1)
of_bool false = number (pos 0)

instance unfoldable pub scalar_eq : Eq Scalar
unfolding Scalar_discrete
scalar_eq = record { dec = Scalar_discrete }

-- `_BREAKING_ATTRS`.
pub data Attribute : Type 0 where
  logical_type physical_type items required proto_field_number record_name : Attribute

abbrev pub breaking_attrs : List Attribute
breaking_attrs =
    logical_type ∷ physical_type ∷ items ∷ required ∷ proto_field_number ∷ record_name ∷ []

-- The keys of a field's snapshot, but for its own fields; an absent key is none. The proto number
-- is any int, as JSON has it: `True`, which is an int and equals 1, is 1.
pub record FieldKeys : Type 0 where
  pub logical_type : Option Text
  pub physical_type : Option Text
  pub items : Option Text
  pub required : Option Bool
  pub proto_field_number : Option ℤ
  pub record_name : Option Text
  pub options : Dict Text Scalar
  pub binding : Dict Text Text

-- `old.get(attr)`.
abbrev pub attr : Attribute → FieldKeys → Option Scalar
attr logical_type k = Option.map text k.logical_type
attr physical_type k = Option.map text k.physical_type
attr items k = Option.map text k.items
attr required k = Option.map of_bool k.required
attr proto_field_number k = Option.map number k.proto_field_number
attr record_name k = Option.map text k.record_name

-- A record field has fields of its own.
mutual
  pub data FieldSnapshot : Type 0 where
    plain : FieldKeys → FieldSnapshot
    record_of : FieldKeys → FieldSnapshots → FieldSnapshot

  pub data FieldSnapshots : Type 0 where
    end : FieldSnapshots
    field : Text → FieldSnapshot → FieldSnapshots → FieldSnapshots

pub record Snapshot : Type 0 where
  pub contract_id : Text
  pub version : Text
  pub binding : Dict Text Text
  pub fields : FieldSnapshots
  pub fingerprints : Dict Text Text

abbrev pub keys_of : FieldSnapshot → FieldKeys
keys_of (plain k) = k
keys_of (record_of k fs) = k

unfoldable pub find : Text → FieldSnapshots → Option FieldSnapshot
find n end = none
find n (field m f fs) = if n == m then some f else find n fs

unfoldable pub names : FieldSnapshots → List Text
names end = []
names (field n f fs) = n ∷ names fs

pub data Change : Type 0 where
  identical backward breaking : Change

-- `_ORDER`.
abbrev pub order : Change → ℕ
order identical = 0
order backward = 1
order breaking = 2

pub data Label : Type 0 where
  message : Label
  in_field : Text → Label

-- What `ChangeReport.note` is told.
pub data Detail : Type 0 where
  binding_removed binding_added binding_changed : Label → (key : Text) → Detail
  attribute_changed : (name : Text) → Attribute → Detail
  constraints_changed removed_field added_required added_optional : (name : Text) → Detail

pub record ChangeReport : Type 0 where
  pub change_class : Change
  pub details : List Detail

abbrev pub Note : Type 0
Note = Change × Detail

-- `ChangeReport.note`.
unfoldable pub note : ChangeReport → Note → ChangeReport
note r (c, d) = record {
  change_class = if ltb (order r.change_class) (order c) then c else r.change_class;
  details = r.details ++ d ∷ [];
}
