-- ===== src/Evolution/Numbers/Fields.antt =====
-- Proto numbers over a history, by the fields of its snapshots and of their records.
use mathlib.Core.List.{Memᴰ}
use ss_common.Prelude.{◌≡◌, ◌↔◌, refl, sym, ap, subst, List, [], ◌∷◌, ◌++◌, Text, inl, inr}
use ss_common.Evolution.Snapshot.{Snapshot}
use ss_common.Evolution.Numbers.{
  Slot, Numbered, Occurrence, numbered_fields, in_version, occurrences, proto_number_errors,
}
use ss_common.Evolution.Numbers.Carried.{
  Carries, numbered, mem-left, mem-right, mem-split, Carries-found, found-Carries,
}
use ss_common.Evolution.Numbers.Laws.{OneName, proto_number_errors-OneName}

-- In a message, or in the record of a name, a number names one field throughout the snapshots.
abbrev pub NamesOneField : List Snapshot → Type 0
NamesOneField snapshots =
    (s t : Snapshot)
    → Memᴰ s snapshots
    → Memᴰ t snapshots
    → (slot : Slot) (a b : Text) → Carries slot a [] s.fields
    → Carries slot b [] t.fields
    → a ≡ b

abbrev at : Text → Numbered → Occurrence
at version n = record { version = version; field = n }

mem-in_version :
    (version : Text) (n : Numbered) (ns : List Numbered)
    → Memᴰ n ns
    → Memᴰ (at version n) (in_version version ns)
mem-in_version version n [] m = elim m [ ]
mem-in_version version n (x ∷ ns) (Memᴰ.head e) = Memᴰ.head (ap (at version) e)
mem-in_version version n (x ∷ ns) (Memᴰ.tail m) = Memᴰ.tail (mem-in_version version n ns m)

in_version-mem :
    (version : Text) (o : Occurrence) (ns : List Numbered)
    → Memᴰ o (in_version version ns)
    → Memᴰ o.field ns
in_version-mem version o [] m = elim m [ ]
in_version-mem version o (x ∷ ns) (Memᴰ.head e) = Memᴰ.head (ap (λ (p : Occurrence). p.field) e)
in_version-mem version o (x ∷ ns) (Memᴰ.tail m) = Memᴰ.tail (in_version-mem version o ns m)

mem-occurrences :
    (s : Snapshot) (n : Numbered) (ss : List Snapshot)
    → Memᴰ s ss
    → Memᴰ n (numbered_fields [] s.fields)
    → Memᴰ (at s.version n) (occurrences ss)
unfolding occurrences
mem-occurrences s n [] m k = elim m [ ]
mem-occurrences s n (x ∷ ss) (Memᴰ.head e) k =
    subst
      (λ (t : Snapshot).
        Memᴰ (at s.version n)
          (in_version t.version (numbered_fields [] t.fields) ++ occurrences ss))
      e
      (mem-left (in_version s.version (numbered_fields [] s.fields)) (occurrences ss)
        (mem-in_version s.version n _ k))
mem-occurrences s n (x ∷ ss) (Memᴰ.tail m) k =
    mem-right (in_version x.version (numbered_fields [] x.fields)) (occurrences ss)
      (mem-occurrences s n ss m k)

occurrences-mem :
    (o : Occurrence) (ss : List Snapshot)
    → Memᴰ o (occurrences ss)
    → (s : Snapshot) × Memᴰ s ss × Memᴰ o.field (numbered_fields [] s.fields)
unfolding occurrences
occurrences-mem o [] m = elim m [ ]
occurrences-mem o (x ∷ ss) m =
    elim (mem-split (in_version x.version (numbered_fields [] x.fields)) (occurrences ss) m) [
      | inl h ↦ (x, Memᴰ.head refl, in_version-mem x.version o _ h)
      | inr h ↦ let (s, k, l) = occurrences-mem o ss h in (s, Memᴰ.tail k, l)
    ]

OneName-NamesOneField : (ss : List Snapshot) → OneName (occurrences ss) ↔ NamesOneField ss
OneName-NamesOneField ss = (
  λ one s t m k slot a b c d.
      one (at s.version (numbered slot a)) (at t.version (numbered slot b))
        (mem-occurrences s (numbered slot a) ss m (Carries-found [] s.fields c))
        (mem-occurrences t (numbered slot b) ss k (Carries-found [] t.fields d)) refl,
  λ names o p m k e.
      let (s, in_s, found_s) = occurrences-mem o ss m in
      let (t, in_t, found_t) = occurrences-mem p ss k in
      names s t in_s in_t o.field.slot o.field.name p.field.name (found-Carries [] s.fields found_s)
        (found-Carries [] t.fields (
          subst (λ (slot : Slot). Memᴰ (numbered slot p.field.name) (numbered_fields [] t.fields))
            (sym e) found_t)),
)

-- A history has no proto number errors exactly where a number names one field of the message, over all
-- of the snapshots, and one field of the records of a name, however deep these stand.
pub proto_number_errors_iff :
    (snapshots : List Snapshot) → (proto_number_errors snapshots ≡ []) ↔ NamesOneField snapshots
proto_number_errors_iff snapshots =
    let (there, back) = proto_number_errors-OneName snapshots in
    let (named, one) = OneName-NamesOneField snapshots in (λ h. named (there h), λ h. back (one h))
