-- ===== src/Evolution/Numbers/Laws.antt =====
-- No errors exactly when the occurrences in a slot have one name.
use mathlib.Core.List.{Memᴰ, append_assoc}
use ss_common.Prelude.{
  ◌≡◌, ◌↔◌, refl, sym, ap, subst, ◌∙◌, none, some, List, [], ◌∷◌, ◌++◌, Text, ◌==◌, list_eq, nat_eq,
  ==_iff, ==_refl, lookup, insert, lookup-insert, lookup-nil, arith, Option-cases, Bool-cases, inl,
  inr, ◌⊎◌,
}
use ss_common.Evolution.Snapshot.{Snapshot}
use ss_common.Evolution.Numbers.Carried.{mem-left}
use ss_common.Evolution.Numbers.{
  in_version, numbered_fields, Slot, slot_eq, Occurrence, Owners, check, occurrences,
  proto_number_errors,
}

-- The occurrences agree with the owners.
abbrev Respects : Owners → List Occurrence → Type 0
Respects owners os =
    (o : Occurrence) (name version : Text)
    → Memᴰ o os
    → lookup o.field.slot owners ≡ some (name, version)
    → name ≡ o.field.name

abbrev pub OneName : List Occurrence → Type 0
OneName os =
    (o p : Occurrence)
    → Memᴰ o os
    → Memᴰ p os
    → o.field.slot ≡ p.field.slot
    → o.field.name ≡ p.field.name

check-cases :
    (owners : Owners) (o : Occurrence) (os : List Occurrence)
    → check owners (o ∷ os) ≡ []
    → (lookup o.field.slot owners ≡ none)
        × (check (insert o.field.slot (o.field.name, o.version) owners) os ≡ [])
      ⊎ ((name : Text) × (version : Text) × (lookup o.field.slot owners ≡ some (name, version))
          × (name ≡ o.field.name)
          × (check owners os ≡ []))
unfolding check
check-cases owners o os h = elim (Option-cases (lookup o.field.slot owners)) [
  | inl e ↦ inl (e, ground arith)
  | inr ((name, version), e) ↦ inr (
    name,
    version,
    e,
    ground (arith, ==_iff name o.field.name),
    ground (arith, ==_iff name o.field.name),
  )
]

owned :
    (owners : Owners) (s t : Slot) (v w : Text × Text)
    → lookup s owners ≡ none
    → lookup t owners ≡ some w
    → lookup t (insert s v owners) ≡ some w
owned owners s t v w h k = ground (arith, lookup-insert t s v owners, ==_iff t s)

-- The owners after the first round on a free slot.
abbrev claim : Owners → Occurrence → Owners
claim owners o = insert o.field.slot (o.field.name, o.version) owners

head_name :
    (owners : Owners) (p : Occurrence) (os : List Occurrence) (name version : Text)
    → check owners (p ∷ os) ≡ []
    → lookup p.field.slot owners ≡ some (name, version)
    → name ≡ p.field.name
unfolding check
head_name owners p os name version h e = ground (arith, ==_iff name p.field.name)

check-Respects :
    (os : List Occurrence) (owners : Owners) → check owners os ≡ [] → Respects owners os
check-Respects [] owners h o name version m e = elim m [ ]
check-Respects (p ∷ os) owners h o name version (Memᴰ.head q) e =
    rw q (head_name owners p os name version h (rw q at e))
check-Respects (p ∷ os) owners h o name version (Memᴰ.tail m) e = elim (check-cases owners p os h) [
  | inl (free, rest) ↦
      check-Respects os (claim owners p) rest o name version m
        (owned owners p.field.slot o.field.slot (p.field.name, p.version) (name, version) free e)
  | inr (n, v, taken, same, rest) ↦ check-Respects os owners rest o name version m e
]

claimed :
    (owners : Owners) (p : Occurrence) (t : Slot)
    → p.field.slot ≡ t
    → lookup t (claim owners p) ≡ some (p.field.name, p.version)
claimed owners p t e =
    ground
      (arith, lookup-insert t p.field.slot (p.field.name, p.version) owners, ==_iff t p.field.slot)

-- The first occurrence in a list without errors has the name of every later one in its slot.
head_later :
    (owners : Owners) (p : Occurrence) (os : List Occurrence) (o : Occurrence)
    → check owners (p ∷ os) ≡ []
    → Memᴰ o os
    → p.field.slot ≡ o.field.slot
    → p.field.name ≡ o.field.name
head_later owners p os o h m e = elim (check-cases owners p os h) [
  | inl (free, rest) ↦
      check-Respects os (claim owners p) rest o p.field.name p.version m
        (claimed owners p o.field.slot e)
  | inr (n, v, taken, same, rest) ↦
      sym same
      ∙ check-Respects os owners rest o n v m
          (subst (λ (t : Slot). lookup t owners ≡ some (n, v)) e taken)
]

check-OneName : (os : List Occurrence) (owners : Owners) → check owners os ≡ [] → OneName os
check-OneName [] owners h o p m k e = elim m [ ]
check-OneName (q ∷ os) owners h o p (Memᴰ.head i) (Memᴰ.head j) e =
    ap (λ (x : Occurrence). x.field.name) (i ∙ sym j)
check-OneName (q ∷ os) owners h o p (Memᴰ.head i) (Memᴰ.tail k) e =
    ap (λ (x : Occurrence). x.field.name) i
    ∙ head_later owners q os p h k (ap (λ (x : Occurrence). x.field.slot) (sym i) ∙ e)
check-OneName (q ∷ os) owners h o p (Memᴰ.tail m) (Memᴰ.head j) e = sym (
    ap (λ (x : Occurrence). x.field.name) j
    ∙ head_later owners q os o h m (ap (λ (x : Occurrence). x.field.slot) (sym j) ∙ sym e))
check-OneName (q ∷ os) owners h o p (Memᴰ.tail m) (Memᴰ.tail k) e =
    elim (check-cases owners q os h) [
      | inl (free, rest) ↦ check-OneName os (claim owners q) rest o p m k e
      | inr (n, v, taken, same, rest) ↦ check-OneName os owners rest o p m k e
    ]

check-free :
    (owners : Owners) (o : Occurrence) (os : List Occurrence)
    → lookup o.field.slot owners ≡ none
    → check (claim owners o) os ≡ []
    → check owners (o ∷ os) ≡ []
unfolding check
check-free owners o os h k = ground arith

check-taken :
    (owners : Owners) (o : Occurrence) (os : List Occurrence) (version : Text)
    → lookup o.field.slot owners ≡ some (o.field.name, version)
    → check owners os ≡ []
    → check owners (o ∷ os) ≡ []
unfolding check
check-taken owners o os version h k = ground (arith, ==_refl o.field.name)

claim-Respects :
    (owners : Owners) (p : Occurrence) (os : List Occurrence)
    → OneName (p ∷ os)
    → Respects owners (p ∷ os)
    → Respects (claim owners p) os
claim-Respects owners p os one resp o name version m e =
    elim (Bool-cases (o.field.slot == p.field.slot)) [
      | inl same ↦
          sym (
            ground
              (arith, e, lookup-insert o.field.slot p.field.slot (p.field.name, p.version) owners))
          ∙ one p o (Memᴰ.head refl) (Memᴰ.tail m) (sym ((==_iff o.field.slot p.field.slot).0 same))
      | inr other ↦ resp o name version (Memᴰ.tail m) (
          ground
            (arith, e, lookup-insert o.field.slot p.field.slot (p.field.name, p.version) owners))
    ]

OneName-check :
    (os : List Occurrence) (owners : Owners)
    → OneName os
    → Respects owners os
    → check owners os ≡ []
OneName-check [] owners one resp = unfold check in refl
OneName-check (o ∷ os) owners one resp = elim (Option-cases (lookup o.field.slot owners)) [
  | inl free ↦ check-free owners o os free (
      OneName-check os (claim owners o) (λ a b m k. one a b (Memᴰ.tail m) (Memᴰ.tail k))
        (claim-Respects owners o os one resp))
  | inr ((name, version), taken) ↦
      check-taken owners o os version
        (taken ∙ ap (λ (n : Text). some (n, version)) (resp o name version (Memᴰ.head refl) taken))
        (OneName-check os owners (λ a b m k. one a b (Memᴰ.tail m) (Memᴰ.tail k))
          (λ a n v m. resp a n v (Memᴰ.tail m)))
]

-- No errors where the occurrences in one slot have one name, and only there.
pub proto_number_errors-OneName :
    (snapshots : List Snapshot)
    → (proto_number_errors snapshots ≡ []) ↔ OneName (occurrences snapshots)
unfolding proto_number_errors
proto_number_errors-OneName snapshots = (
  check-OneName (occurrences snapshots) [],
  λ one.
      OneName-check (occurrences snapshots) [] one
        (λ o name version m e. cc (lookup-nil {V = Text × Text} o.field.slot)),
)

occurrences-append :
    (ss ts : List Snapshot) → occurrences (ss ++ ts) ≡ occurrences ss ++ occurrences ts
unfolding occurrences
occurrences-append [] ts = refl
occurrences-append (s ∷ ss) ts = ground (
  arith,
  occurrences-append ss ts,
  append_assoc (in_version s.version (numbered_fields [] s.fields)) (occurrences ss)
      (occurrences ts),
)

-- A history without errors has none in its first versions.
pub proto_number_errors-prefix :
    (ss ts : List Snapshot) → proto_number_errors (ss ++ ts) ≡ [] → proto_number_errors ss ≡ []
proto_number_errors-prefix ss ts h =
    let one =
      subst OneName (occurrences-append ss ts) ((proto_number_errors-OneName (ss ++ ts)).0 h) in
    (proto_number_errors-OneName ss).1 λ o p m k.
      one o p (mem-left (occurrences ss) (occurrences ts) m)
        (mem-left (occurrences ss) (occurrences ts) k)
