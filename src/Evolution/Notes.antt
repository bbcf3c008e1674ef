-- ===== src/Evolution/Notes.antt =====
-- The notes of one list of fields: which of them speak of a breaking change.
use ss_common.Prelude.{
  ◌≡◌, refl, sym, ◌∙◌, ◌↔◌, true, false, not, ◌&&◌, some, List, [], ◌∷◌, ◌++◌, Text, arith, list_eq,
  nat_eq, contains, difference, difference-contains, sorted_set, is_empty, is_some,
  is_empty-sorted_set, contains-sorted_set, Dict, Option-cases, inl, inr,
}
use ss_common.Evolution.Snapshot.{FieldSnapshot, FieldSnapshots, end, field, find, names, Note}
use ss_common.Evolution.Classify.{
  each_key, is_required, insert_by_name, by_name, all_notes, fields_notes, removed_note, added_note,
}
use ss_common.Evolution.Report.{
  clean, clean-append, clean-append₃, append₃-clean, clean-each_key, clean-key,
}
use ss_common.Evolution.Compatible.{AddsOptional}

clean-insert_by_name :
    (n : Text) (ns : List Note) (d : Dict Text (List Note))
    → clean (all_notes (insert_by_name n ns d)) ≡ (clean ns && clean (all_notes d))
unfolding insert_by_name all_notes
clean-insert_by_name n ns [] = clean-append ns []
clean-insert_by_name n ns ((m, ms) ∷ d) = ground (
  arith,
  clean-insert_by_name n ns d,
  clean-append ns (ms ++ all_notes d),
  clean-append ms (all_notes d),
  clean-append ms (all_notes (insert_by_name n ns d)),
)

-- Sorting the notes by field does not change whether one is breaking.
clean-by_name : (d : Dict Text (List Note)) → clean (all_notes (by_name d)) ≡ clean (all_notes d)
unfolding by_name all_notes
clean-by_name [] = refl
clean-by_name ((n, ns) ∷ d) =
    ground
      (arith, clean-insert_by_name n ns (by_name d), clean-by_name d, clean-append ns (all_notes d))

pub contains-names : (n : Text) (fs : FieldSnapshots) → contains (names fs) n ≡ is_some (find n fs)
unfolding names find
contains-names n end = refl
contains-names n (field m f fs) = ground (arith, contains-names n fs)

clean-removed :
    (prefix : Text) (ks : List Text) → clean (each_key (removed_note prefix) ks) ≡ is_empty ks
unfolding each_key
clean-removed prefix [] = refl
clean-removed prefix (k ∷ ks) = refl

-- The names that `old` has and `new` has not.
abbrev pub gone : FieldSnapshots → FieldSnapshots → List Text
gone old new = difference (names old) (names new)

clean-gone :
    (prefix : Text) (old new : FieldSnapshots)
    → clean (each_key (removed_note prefix) (sorted_set (gone old new))) ≡ is_empty (gone old new)
clean-gone prefix old new =
    clean-removed prefix (sorted_set (gone old new)) ∙ is_empty-sorted_set (gone old new)

clean-added_note :
    (prefix n : Text) (new : FieldSnapshots) (g : FieldSnapshot)
    → find n new ≡ some g
    → clean (added_note prefix new n) ≡ not (is_required g)
clean-added_note prefix n new g e = ground arith

-- The added fields are optional exactly when none of their notes is breaking.
clean-added :
    (prefix : Text) (old new : FieldSnapshots)
    → (clean (each_key (added_note prefix new) (sorted_set (gone new old))) ≡ true)
      ↔ AddsOptional old new
clean-added prefix old new = (
  λ h n g absent present. ground (
    arith,
    clean-added_note prefix n new g present,
    clean-key (added_note prefix new) (sorted_set (gone new old)) n h (
        ground (
          arith,
          contains-sorted_set n (gone new old),
          difference-contains n (names new) (names old),
          contains-names n old,
          contains-names n new,
        )),
  ),
  λ optional. clean-each_key (added_note prefix new) (sorted_set (gone new old)) (λ n m.
      elim (Option-cases (find n new)) [
        | inl none_new ↦ ground arith
        | inr (g, present) ↦
            ground
              (arith, clean-added_note prefix n new g present, absent-old n m optional g present)
      ]),
)
  where
    absent-old :
        (n : Text)
        → contains (sorted_set (gone new old)) n ≡ true
        → AddsOptional old new
        → (g : FieldSnapshot) → find n new ≡ some g
        → is_required g ≡ false
    absent-old n m optional g present = elim (Option-cases (find n old)) [
      | inl absent ↦ optional n g absent present
      | inr (f, e) ↦ ground (
        arith,
        contains-sorted_set n (gone new old),
        difference-contains n (names new) (names old),
        contains-names n old,
      )
    ]

module _ (prefix : Text) (old new : FieldSnapshots) (common : Dict Text (List Note)) where
  pub clean-fields_notes :
      clean (fields_notes prefix old new common) ≡ true
      → (is_empty (gone old new) ≡ true) × (clean (all_notes common) ≡ true) × AddsOptional old new
  unfolding fields_notes
  clean-fields_notes h =
      let (r, c, a) =
        clean-append₃ (each_key (removed_note prefix) (sorted_set (gone old new)))
          (all_notes (by_name common))
          (each_key (added_note prefix new) (sorted_set (gone new old))) h in
      (
        sym (clean-gone prefix old new) ∙ r,
        sym (clean-by_name common) ∙ c,
        (clean-added prefix old new).0 a,
      )

  pub fields_notes-clean :
      is_empty (gone old new) ≡ true
      → clean (all_notes common) ≡ true
      → AddsOptional old new
      → clean (fields_notes prefix old new common) ≡ true
  unfolding fields_notes
  fields_notes-clean r c a =
      append₃-clean (each_key (removed_note prefix) (sorted_set (gone old new)))
        (all_notes (by_name common)) (each_key (added_note prefix new) (sorted_set (gone new old)))
        (clean-gone prefix old new ∙ r) (clean-by_name common ∙ c)
        ((clean-added prefix old new).1 a)
