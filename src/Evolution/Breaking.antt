-- ===== src/Evolution/Breaking.antt =====
-- The class of a change against the compatibility of the snapshots.
use ss_common.Prelude.{
  ◌≡◌, refl, ◌↔◌, ◌≢◌, true, ◌&&◌, none, some, [], ◌++◌, Text, codes, arith, list_eq, nat_eq,
  is_empty, is_some,
}
use ss_common.Evolution.Snapshot.{
  FieldSnapshot, FieldSnapshots, plain, record_of, end, field, Snapshot, keys_of, find, names,
  breaking, message,
}
use ss_common.Evolution.Classify.{
  own_notes, all_notes, fields_notes, classify_field, classify_common, classify_fields,
  classify_binding, change_notes, classify_change, no_change,
}
use ss_common.Evolution.Report.{clean, clean-append_iff, report_notes-breaking}
use ss_common.Evolution.Compatible.{
  clean-classify_binding, clean-own_notes, KeepsField, KeepsEach, IsCompatible,
}
use ss_common.Evolution.Notes.{contains-names, gone, clean-fields_notes, fields_notes-clean}

gone-cons :
    (n : Text) (f : FieldSnapshot) (fs new : FieldSnapshots)
    → is_empty (gone (field n f fs) new) ≡ (is_some (find n new) && is_empty (gone fs new))
unfolding names
gone-cons n f fs new = ground (arith, contains-names n new)

common-none :
    (prefix n : Text) (f : FieldSnapshot) (fs new : FieldSnapshots)
    → find n new ≡ none
    → classify_common prefix (field n f fs) new ≡ classify_common prefix fs new
unfolding classify_common
common-none prefix n f fs new e = ground arith

common-some :
    (prefix n : Text) (f : FieldSnapshot) (fs new : FieldSnapshots) {g : FieldSnapshot}
    → find n new ≡ some g
    → all_notes (classify_common prefix (field n f fs) new)
      ≡ classify_field (prefix ++ n) f g ++ all_notes (classify_common prefix fs new)
unfolding classify_common all_notes
common-some prefix n f fs new e = ground arith

present-cons :
    (n : Text) (f : FieldSnapshot) (fs new : FieldSnapshots)
    → is_empty (gone (field n f fs) new) ≡ true
    → ((g : FieldSnapshot) × (find n new ≡ some g)) × (is_empty (gone fs new) ≡ true)
present-cons n f fs new h =
    (ground (arith, gone-cons n f fs new), ground (arith, gone-cons n f fs new))

mutual
  unfolding classify_field

  KeepsField-of_clean :
      (name : Text) (f g : FieldSnapshot) → clean (classify_field name f g) ≡ true → KeepsField f g
  KeepsField-of_clean name (plain old) new h = (clean-own_notes name old (keys_of new)).0 h
  KeepsField-of_clean name (record_of old fs) (plain new) h = (clean-own_notes name old new).0 h
  KeepsField-of_clean name (record_of old fs) (record_of new gs) h =
      let prefix = name ++ codes "." in
      let (own, nested) =
        (clean-append_iff (own_notes name old new)
            (fields_notes prefix fs gs (classify_common prefix fs gs))).0
          h in
      let (r, c, a) = clean-fields_notes prefix fs gs (classify_common prefix fs gs) nested in
      ((clean-own_notes name old new).0 own, KeepsEach-of_clean prefix fs gs r c, a)

  KeepsEach-of_clean :
      (prefix : Text) (fs gs : FieldSnapshots)
      → is_empty (gone fs gs) ≡ true
      → clean (all_notes (classify_common prefix fs gs)) ≡ true
      → KeepsEach fs gs
  KeepsEach-of_clean prefix end gs r h = tt
  KeepsEach-of_clean prefix (field n f fs) gs r h =
      let ((g, present), rest) = present-cons n f fs gs r in
      let (one, more) =
        (clean-append_iff (classify_field (prefix ++ n) f g)
            (all_notes (classify_common prefix fs gs))).0
          (rw (common-some prefix n f fs gs present) at h) in
      (
        (g, present, KeepsField-of_clean (prefix ++ n) f g one),
        KeepsEach-of_clean prefix fs gs rest more,
      )

mutual
  unfolding classify_field classify_common names all_notes

  KeepsField-clean :
      (name : Text) (f g : FieldSnapshot) → KeepsField f g → clean (classify_field name f g) ≡ true
  KeepsField-clean name (plain old) new h = (clean-own_notes name old (keys_of new)).1 h
  KeepsField-clean name (record_of old fs) (plain new) h = (clean-own_notes name old new).1 h
  KeepsField-clean name (record_of old fs) (record_of new gs) (own, each, optional) =
      let prefix = name ++ codes "." in
      let (c, r) = KeepsEach-clean prefix fs gs each in
      (clean-append_iff (own_notes name old new)
          (fields_notes prefix fs gs (classify_common prefix fs gs))).1
        (
          (clean-own_notes name old new).1 own,
          fields_notes-clean prefix fs gs (classify_common prefix fs gs) r c optional,
        )

  KeepsEach-clean :
      (prefix : Text) (fs gs : FieldSnapshots)
      → KeepsEach fs gs
      → (clean (all_notes (classify_common prefix fs gs)) ≡ true) × (is_empty (gone fs gs) ≡ true)
  KeepsEach-clean prefix end gs h = (refl, refl)
  KeepsEach-clean prefix (field n f fs) gs ((g, present, kept), rest) =
      let (c, r) = KeepsEach-clean prefix fs gs rest in
      let one = KeepsField-clean (prefix ++ n) f g kept in
      (
        rw (common-some prefix n f fs gs present) (
            (clean-append_iff (classify_field (prefix ++ n) f g)
                (all_notes (classify_common prefix fs gs))).1
              (one, c)),
        ground (arith, gone-cons n f fs gs),
      )

change_notes-clean :
    (old new : Snapshot) → (clean (change_notes old new) ≡ true) ↔ IsCompatible old new
unfolding change_notes classify_fields
change_notes-clean old new =
    let common = classify_common [] old.fields new.fields in
    let shape = fields_notes [] old.fields new.fields common in
    let bindings = classify_binding message old.binding new.binding in
    (
      λ h.
          let (f, b) = (clean-append_iff shape bindings).0 h in
          let (r, c, a) = clean-fields_notes [] old.fields new.fields common f in
          (
            KeepsEach-of_clean [] old.fields new.fields r c,
            a,
            (clean-classify_binding message old.binding new.binding).0 b,
          ),
      λ (each, optional, b).
          let (c, r) = KeepsEach-clean [] old.fields new.fields each in
          (clean-append_iff shape bindings).1 (
            fields_notes-clean [] old.fields new.fields common r c optional,
            (clean-classify_binding message old.binding new.binding).1 b,
          ),
    )

-- The change between two snapshots is classified as breaking exactly when the new one is not
-- compatible with the old one: some field is gone, or differs in an attribute, a binding or its own
-- fields, or a required field is new, or an entry of the message's binding is gone or differs.
pub breaking_iff :
    (old new : Snapshot)
    → ((classify_change old new).change_class ≢ breaking) ↔ IsCompatible old new
unfolding classify_change
breaking_iff old new = (
  λ h.
      (change_notes-clean old new).0
        (ground (arith, report_notes-breaking no_change (change_notes old new))),
  λ k. not_breaking ((change_notes-clean old new).1 k),
)
  where
    not_breaking :
        clean (change_notes old new) ≡ true → (classify_change old new).change_class ≢ breaking
    not_breaking c e = ground (arith, report_notes-breaking no_change (change_notes old new))
