-- ===== src/Evolution/Classify.antt =====
-- src/ss_contracts/tooling/evolution_policy.py: the change between two snapshots. The functions of
-- the source tell a report their notes one after the other; here they return the notes in that order.
use ss_common.Prelude.{
  Bool, true, false, not, ◌&&◌, none, some, List, [], ◌∷◌, ◌++◌, Text, codes, ◌==◌, list_eq, nat_eq,
  option_eq, difference, if◌then◌else◌, Dict, keys, lookup, sorted_set, text_ltb, is_some,
}
use ss_common.Evolution.Snapshot.{
  Scalar, Attribute, FieldKeys, attr, breaking_attrs, FieldSnapshot, FieldSnapshots, plain,
  record_of, end, field, Snapshot, keys_of, find, names, identical, backward, breaking, Label,
  message, in_field, binding_removed, binding_added, binding_changed, attribute_changed,
  constraints_changed, removed_field, added_required, added_optional, ChangeReport, Note, note,
  scalar_eq,
}

unfoldable pub binding_note : Label → Dict Text Text → Dict Text Text → Text → List Note
binding_note label old new key =
    if not (is_some (lookup key new))
    then (breaking, binding_removed label key) ∷ []
    else if not (is_some (lookup key old))
    then (backward, binding_added label key) ∷ []
    else if lookup key old == lookup key new
    then []
    else (breaking, binding_changed label key) ∷ []

unfoldable pub each_key : (Text → List Note) → List Text → List Note
each_key f [] = []
each_key f (k ∷ ks) = f k ++ each_key f ks

-- `_classify_binding`.
unfoldable pub classify_binding : Label → Dict Text Text → Dict Text Text → List Note
classify_binding label old new =
    each_key (binding_note label old new) (sorted_set (keys old ++ keys new))

unfoldable pub attribute_notes : Text → FieldKeys → FieldKeys → List Attribute → List Note
attribute_notes name old new [] = []
attribute_notes name old new (a ∷ rest) =
    (if attr a old == attr a new then [] else (breaking, attribute_changed name a) ∷ [])
    ++ attribute_notes name old new rest

-- Equality of two `dict`s, whatever the order of their keys.
abbrev agree : Dict Text Scalar → Dict Text Scalar → List Text → Bool
agree d e [] = true
agree d e (k ∷ ks) = lookup k d == lookup k e && agree d e ks

unfoldable pub same_dict : Dict Text Scalar → Dict Text Scalar → Bool
same_dict d e = agree d e (keys d ++ keys e)

abbrev pub option_notes : Text → FieldKeys → FieldKeys → List Note
option_notes name old new =
    if same_dict old.options new.options then [] else (backward, constraints_changed name) ∷ []

-- `_classify_field`, without the fields of a record.
unfoldable pub own_notes : Text → FieldKeys → FieldKeys → List Note
own_notes name old new =
    attribute_notes name old new breaking_attrs
    ++ option_notes name old new
    ++ classify_binding (in_field name) old.binding new.binding

-- `new.get("required")` is true.
abbrev pub is_required : FieldSnapshot → Bool
is_required f = elim (keys_of f).required [ none ↦ false | some b ↦ b ]

-- `_classify_added`.
abbrev pub classify_added : Text → FieldSnapshot → Note
classify_added name new =
    if is_required new then (breaking, added_required name) else (backward, added_optional name)

abbrev pub removed_note : Text → Text → List Note
removed_note prefix name = (breaking, removed_field (prefix ++ name)) ∷ []

abbrev pub added_note : Text → FieldSnapshots → Text → List Note
added_note prefix new name = elim (find name new) [
  | none ↦ []
  | some f ↦ classify_added (prefix ++ name) f ∷ []
]

unfoldable pub insert_by_name : Text → List Note → Dict Text (List Note) → Dict Text (List Note)
insert_by_name n ns [] = (n, ns) ∷ []
insert_by_name n ns ((m, ms) ∷ d) =
    if text_ltb m n then (m, ms) ∷ insert_by_name n ns d else (n, ns) ∷ (m, ms) ∷ d

-- The notes of the common fields, by name.
unfoldable pub by_name : Dict Text (List Note) → Dict Text (List Note)
by_name [] = []
by_name ((n, ns) ∷ d) = insert_by_name n ns (by_name d)

unfoldable pub all_notes : Dict Text (List Note) → List Note
all_notes [] = []
all_notes ((n, ns) ∷ d) = ns ++ all_notes d

-- The three loops of `_classify_fields`, over the notes of each common field.
unfoldable pub fields_notes :
    Text → FieldSnapshots → FieldSnapshots → Dict Text (List Note) → List Note
unfolding insert_by_name by_name all_notes
fields_notes prefix old new common =
    each_key (removed_note prefix) (sorted_set (difference (names old) (names new)))
    ++ all_notes (by_name common)
    ++ each_key (added_note prefix new) (sorted_set (difference (names new) (names old)))

unfoldable mutual
  -- `_classify_field`.
  pub classify_field : Text → FieldSnapshot → FieldSnapshot → List Note
  classify_field name (plain old) new = own_notes name old (keys_of new)
  classify_field name (record_of old fs) (plain new) = own_notes name old new
  classify_field name (record_of old fs) (record_of new gs) =
      own_notes name old new
      ++ fields_notes (name ++ codes ".") fs gs (classify_common (name ++ codes ".") fs gs)

  -- The fields that both have, each with its notes.
  pub classify_common : Text → FieldSnapshots → FieldSnapshots → Dict Text (List Note)
  classify_common prefix end new = []
  classify_common prefix (field n f fs) new = elim (find n new) [
    | none ↦ classify_common prefix fs new
    | some g ↦ (n, classify_field (prefix ++ n) f g) ∷ classify_common prefix fs new
  ]

-- `_classify_fields`.
unfoldable pub classify_fields : Text → FieldSnapshots → FieldSnapshots → List Note
classify_fields prefix old new = fields_notes prefix old new (classify_common prefix old new)

unfoldable pub change_notes : Snapshot → Snapshot → List Note
change_notes baseline current =
    classify_fields [] baseline.fields current.fields
    ++ classify_binding message baseline.binding current.binding

unfoldable pub report_notes : ChangeReport → List Note → ChangeReport
report_notes r [] = r
report_notes r (n ∷ ns) = report_notes (note r n) ns

abbrev pub no_change : ChangeReport
no_change = record { change_class = identical; details = [] }

unfoldable pub classify_change : Snapshot → Snapshot → ChangeReport
classify_change baseline current = report_notes no_change (change_notes baseline current)
