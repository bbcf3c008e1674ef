-- ===== src/Evolution/Report.antt =====
-- What a report holds after its notes: the worst class and every detail.
use ss_common.Prelude.{
  ◌≡◌, refl, sym, ◌∙◌, ◌↔◌, Bool, true, false, not, ◌&&◌, ◌||◌, List, [], ◌∷◌, ◌++◌, map, Text,
  arith, list_eq, nat_eq, contains, ==_iff, is_empty,
}
use mathlib.Core.List.{append_assoc, append-nil}
use ss_common.Evolution.Snapshot.{Change, identical, breaking, Detail, ChangeReport, Note, note}
use ss_common.Evolution.Classify.{report_notes, each_key}

abbrev pub is_breaking : Change → Bool
is_breaking breaking = true
is_breaking _ = false

abbrev pub is_identical : Change → Bool
is_identical identical = true
is_identical _ = false

-- No note is breaking.
abbrev pub clean : List Note → Bool
clean [] = true
clean ((c, d) ∷ ns) = not (is_breaking c) && clean ns

-- Every note is of a change.
abbrev pub changing : List Note → Bool
changing [] = true
changing ((c, d) ∷ ns) = not (is_identical c) && changing ns

pub clean-append : (ms ns : List Note) → clean (ms ++ ns) ≡ (clean ms && clean ns)
clean-append [] ns = refl
clean-append ((c, d) ∷ ms) ns = ground (arith, clean-append ms ns)

pub clean-append_iff :
    (ms ns : List Note) → (clean (ms ++ ns) ≡ true) ↔ ((clean ms ≡ true) × (clean ns ≡ true))
clean-append_iff ms ns =
    (λ h. ground (arith, clean-append ms ns), λ h. ground (arith, clean-append ms ns))

pub clean-append₃ :
    (ls ms ns : List Note)
    → clean (ls ++ ms ++ ns) ≡ true
    → (clean ls ≡ true) × (clean ms ≡ true) × (clean ns ≡ true)
clean-append₃ ls ms ns h = ground (arith, clean-append (ls ++ ms) ns, clean-append ls ms)

pub append₃-clean :
    (ls ms ns : List Note)
    → clean ls ≡ true
    → clean ms ≡ true
    → clean ns ≡ true
    → clean (ls ++ ms ++ ns) ≡ true
append₃-clean ls ms ns h k l = ground (arith, clean-append (ls ++ ms) ns, clean-append ls ms)

pub changing-append : (ms ns : List Note) → changing (ms ++ ns) ≡ (changing ms && changing ns)
changing-append [] ns = refl
changing-append ((c, d) ∷ ms) ns = ground (arith, changing-append ms ns)

pub report_notes-breaking :
    (r : ChangeReport) (ns : List Note)
    → is_breaking (report_notes r ns).change_class ≡ (is_breaking r.change_class || not (clean ns))
unfolding report_notes note
report_notes-breaking r [] = ground arith
report_notes-breaking r ((c, d) ∷ ns) = ground (arith, report_notes-breaking (note r (c, d)) ns)

abbrev pub detail_of : Note → Detail
detail_of (c, d) = d

pub report_notes-details :
    (r : ChangeReport) (ns : List Note)
    → (report_notes r ns).details ≡ r.details ++ map detail_of ns
unfolding report_notes note
report_notes-details r [] = sym (append-nil r.details)
report_notes-details r ((c, d) ∷ ns) =
    report_notes-details (note r (c, d)) ns ∙ append_assoc r.details (d ∷ []) (map detail_of ns)

pub report_notes-identical :
    (r : ChangeReport) (ns : List Note)
    → changing ns ≡ true
    → is_identical (report_notes r ns).change_class ≡ (is_identical r.change_class && is_empty ns)
unfolding report_notes note
report_notes-identical r [] h = ground arith
report_notes-identical r ((c, d) ∷ ns) h = ground (arith, report_notes-identical (note r (c, d)) ns)

-- What holds of each key's notes holds of all.
pub clean-each_key :
    (f : Text → List Note) (ks : List Text)
    → ((k : Text) → contains ks k ≡ true → clean (f k) ≡ true)
    → clean (each_key f ks) ≡ true
unfolding each_key
clean-each_key f [] h = refl
clean-each_key f (k ∷ ks) h = ground (
  arith,
  clean-append (f k) (each_key f ks),
  h k,
  ==_iff k k,
  clean-each_key f ks (λ j m. h j (ground arith)),
)

pub clean-key :
    (f : Text → List Note) (ks : List Text) (k : Text)
    → clean (each_key f ks) ≡ true
    → contains ks k ≡ true
    → clean (f k) ≡ true
unfolding each_key
clean-key f [] k h m = cc
clean-key f (j ∷ ks) k h m =
    ground (arith, clean-append (f j) (each_key f ks), ==_iff k j, clean-key f ks k)

pub changing-each_key :
    (f : Text → List Note) (ks : List Text)
    → ((k : Text) → changing (f k) ≡ true)
    → changing (each_key f ks) ≡ true
unfolding each_key
changing-each_key f [] h = refl
changing-each_key f (k ∷ ks) h =
    ground (arith, changing-append (f k) (each_key f ks), h k, changing-each_key f ks h)
