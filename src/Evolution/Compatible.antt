-- ===== src/Evolution/Compatible.antt =====
-- A change is not breaking exactly when what readers and writers rely on is kept.
use ss_common.Prelude.{
  ◌≡◌, refl, ◌↔◌, true, false, none, some, List, [], ◌∷◌, ◌++◌, Text, All, arith, list_eq, nat_eq,
  option_eq, contains, contains-append, ==_iff, sorted_set, contains-sorted_set, contains-keys,
  Dict, keys, lookup, Option-cases, inl, inr,
}
use ss_common.Evolution.Snapshot.{
  Attribute, logical_type, physical_type, items, required, proto_field_number, record_name,
  FieldKeys, attr, breaking_attrs, FieldSnapshot, FieldSnapshots, plain, record_of, end, field,
  Snapshot, keys_of, find, scalar_eq, Label, in_field,
}
use ss_common.Evolution.Classify.{
  binding_note, classify_binding, attribute_notes, own_notes, option_notes, is_required,
}
use ss_common.Evolution.Report.{clean, clean-append₃, append₃-clean, clean-each_key, clean-key}

-- Every entry of the old binding is in the new one, with its value.
abbrev pub KeepsBinding : Dict Text Text → Dict Text Text → Type 0
KeepsBinding old new = (k v : Text) → lookup k old ≡ some v → lookup k new ≡ some v

abbrev pub KeepsKeys : FieldKeys → FieldKeys → Type 0
KeepsKeys old new =
    ((a : Attribute) → attr a old ≡ attr a new) × KeepsBinding old.binding new.binding

clean-binding_note :
    (label : Label) (old new : Dict Text Text) (k v : Text)
    → clean (binding_note label old new k) ≡ true
    → lookup k old ≡ some v
    → lookup k new ≡ some v
unfolding binding_note
clean-binding_note label old new k v h e = ground (arith, ==_iff (lookup k old) (lookup k new))

binding_note-clean :
    (label : Label) (old new : Dict Text Text) (k : Text)
    → KeepsBinding old new
    → contains (keys old ++ keys new) k ≡ true
    → clean (binding_note label old new k) ≡ true
unfolding binding_note
binding_note-clean label old new k keeps m = elim (Option-cases (lookup k old)) [
  | inl e ↦
      ground
        (arith, contains-append k (keys old) (keys new), contains-keys k old, contains-keys k new)
  | inr (v, e) ↦ ground (arith, keeps k v e, ==_iff (lookup k old) (lookup k new))
]

pub clean-classify_binding :
    (label : Label) (old new : Dict Text Text)
    → (clean (classify_binding label old new) ≡ true) ↔ KeepsBinding old new
unfolding classify_binding
clean-classify_binding label old new = (
  λ h k v e.
      clean-binding_note label old new k v
        (clean-key (binding_note label old new) (sorted_set (keys old ++ keys new)) k h (
          ground (
            arith,
            contains-sorted_set k (keys old ++ keys new),
            contains-append k (keys old) (keys new),
            contains-keys k old,
          )))
        e,
  λ keeps. clean-each_key (binding_note label old new) (sorted_set (keys old ++ keys new)) λ k m.
      binding_note-clean label old new k keeps
        (ground (arith, contains-sorted_set k (keys old ++ keys new))),
)

clean-attribute_notes :
    (name : Text) (old new : FieldKeys) (attrs : List Attribute)
    → clean (attribute_notes name old new attrs) ≡ true
    → All (λ a. attr a old ≡ attr a new) attrs
unfolding attribute_notes
clean-attribute_notes name old new [] h = tt
clean-attribute_notes name old new (a ∷ rest) h = (
  ground (arith, ==_iff (attr a old) (attr a new)),
  clean-attribute_notes name old new rest (ground arith),
)

attribute_notes-clean :
    (name : Text) (old new : FieldKeys) (attrs : List Attribute)
    → ((a : Attribute) → attr a old ≡ attr a new)
    → clean (attribute_notes name old new attrs) ≡ true
unfolding attribute_notes
attribute_notes-clean name old new [] h = refl
attribute_notes-clean name old new (a ∷ rest) h =
    rw ((==_iff (attr a old) (attr a new)).1 (h a)) (attribute_notes-clean name old new rest h)

all_attributes : (P : Attribute → Type 0) → All P breaking_attrs → (a : Attribute) → P a
all_attributes P (l, (p, (i, (r, (n, (c, _)))))) logical_type = l
all_attributes P (l, (p, (i, (r, (n, (c, _)))))) physical_type = p
all_attributes P (l, (p, (i, (r, (n, (c, _)))))) items = i
all_attributes P (l, (p, (i, (r, (n, (c, _)))))) required = r
all_attributes P (l, (p, (i, (r, (n, (c, _)))))) proto_field_number = n
all_attributes P (l, (p, (i, (r, (n, (c, _)))))) record_name = c

option_notes-clean : (name : Text) (old new : FieldKeys) → clean (option_notes name old new) ≡ true
option_notes-clean name old new = ground arith

pub clean-own_notes :
    (name : Text) (old new : FieldKeys)
    → (clean (own_notes name old new) ≡ true) ↔ KeepsKeys old new
unfolding own_notes
clean-own_notes name old new =
    let attributes = attribute_notes name old new breaking_attrs in
    let bindings = classify_binding (in_field name) old.binding new.binding in
    (
      λ h.
          let (a, _, b) = clean-append₃ attributes (option_notes name old new) bindings h in
          (
            all_attributes (λ x. attr x old ≡ attr x new)
                (clean-attribute_notes name old new breaking_attrs a),
            (clean-classify_binding (in_field name) old.binding new.binding).0 b,
          ),
      λ keeps.
          append₃-clean attributes (option_notes name old new) bindings
            (attribute_notes-clean name old new breaking_attrs keeps.0)
            (option_notes-clean name old new)
            ((clean-classify_binding (in_field name) old.binding new.binding).1 keeps.1),
    )

-- The fields that a consumer of the new message may find beside the old ones are optional.
abbrev pub AddsOptional : FieldSnapshots → FieldSnapshots → Type 0
AddsOptional old new =
    (n : Text) (g : FieldSnapshot) → find n old ≡ none → find n new ≡ some g → is_required g ≡ false

abbrev mutual
  pub KeepsField : FieldSnapshot → FieldSnapshot → Type 0
  KeepsField (plain old) new = KeepsKeys old (keys_of new)
  KeepsField (record_of old fs) (plain new) = KeepsKeys old new
  KeepsField (record_of old fs) (record_of new gs) =
      KeepsKeys old new × KeepsEach fs gs × AddsOptional fs gs

  -- Each old field is kept.
  pub KeepsEach : FieldSnapshots → FieldSnapshots → Type 0
  KeepsEach end new = Unit
  KeepsEach (field n f fs) new =
      ((g : FieldSnapshot) × (find n new ≡ some g) × KeepsField f g) × KeepsEach fs new

-- What holds between two snapshots whose change is not breaking.
abbrev pub IsCompatible : Snapshot → Snapshot → Type 0
IsCompatible old new =
    KeepsEach old.fields new.fields
    × AddsOptional old.fields new.fields
    × KeepsBinding old.binding new.binding
