-- ===== src/Topics/Levels.antt =====
-- What `TopicEntry.match` and `TopicEntry.build` do level by level, for any accumulated parameters.
use ss_common.Prelude.{
  suc, ◌≡◌, refl, ap, true, false, none, some, List, [], ◌∷◌, Text, list_eq, nat_eq, ==_iff,
  ==_refl, Distinct, ◌∙◌, contains, if◌then◌else◌, is_some, length, All, Lacks, lookup, insert,
  lookup-insert, arith, ◌⊎◌, inl, inr,
}
use ss_common.Result.{ok}
use ss_common.Topics.{
  Params, slash, placeholder, is_value, names_of, match_levels, build_level, build_levels,
}

-- A text that `VALUE_RE` accepts holds no slash.
is_value-Lacks : (s : Text) → is_value s ≡ true → Lacks slash s
unfolding is_value
is_value-Lacks [] h = refl
is_value-Lacks (c ∷ []) h = ground (arith, ==_iff c slash, ==_iff slash c)
is_value-Lacks (c ∷ d ∷ s) h =
    ground (arith, is_value-Lacks (d ∷ s), ==_iff c slash, ==_iff slash c)

-- `vs` is the list of levels `ls` with each placeholder replaced by its value in `ps`.
pub data Instance (ps : Params) : List Text → List Text → Type 0 where
  nil : Instance ps [] []
  literal :
      {l : Text} {ls vs : List Text}
      → placeholder l ≡ none
      → Instance ps ls vs
      → Instance ps (l ∷ ls) (l ∷ vs)
  filled :
      {l n v : Text} {ls vs : List Text}
      → placeholder l ≡ some n
      → lookup n ps ≡ some v
      → is_value v ≡ true
      → Instance ps ls vs
      → Instance ps (l ∷ ls) (v ∷ vs)

pub Instance-length : {ps : Params} {ls vs : List Text} → Instance ps ls vs → length vs ≡ length ls
Instance-length nil = refl
Instance-length (literal p i) = ap suc (Instance-length i)
Instance-length (filled p q r i) = ap suc (Instance-length i)

pub Instance-Lacks :
    {ps : Params} {ls vs : List Text}
    → Instance ps ls vs
    → All (Lacks slash) ls
    → All (Lacks slash) vs
Instance-Lacks nil all = tt
Instance-Lacks (literal p i) all = (all.0, Instance-Lacks i all.1)
Instance-Lacks (filled {v = v} p q r i) all = (is_value-Lacks v r, Instance-Lacks i all.1)

-- `build_levels` returns exactly the instances.
pub Instance-build_levels :
    {ps : Params} {ls vs : List Text} → Instance ps ls vs → build_levels ps ls ≡ ok vs
unfolding build_levels build_level
Instance-build_levels nil = refl
Instance-build_levels (literal p i) = ground (arith, Instance-build_levels i)
Instance-build_levels (filled p q r i) = ground (arith, Instance-build_levels i)

build_levels-cons :
    (ps : Params) (l : Text) (ls : List Text) {vs : List Text}
    → build_levels ps (l ∷ ls) ≡ ok vs
    → (v : Text) × (rest : List Text) × (build_level ps l ≡ ok v)
      × (build_levels ps ls ≡ ok rest)
      × (vs ≡ v ∷ rest)
unfolding build_levels
build_levels-cons ps l ls h = ground arith

build_level-cases :
    (ps : Params) (l : Text) {v : Text}
    → build_level ps l ≡ ok v
    → (placeholder l ≡ none) × (l ≡ v)
      ⊎ ((n : Text) × (placeholder l ≡ some n) × (lookup n ps ≡ some v) × (is_value v ≡ true))
unfolding build_level
build_level-cases ps l h = ground arith

build_level-Instance :
    (ps : Params) (l v : Text) (ls vs : List Text)
    → build_level ps l ≡ ok v
    → Instance ps ls vs
    → Instance ps (l ∷ ls) (v ∷ vs)
build_level-Instance ps l v ls vs h i = elim (build_level-cases ps l h) [
  | inl (p, e) ↦ rw (← e) (literal p i)
  | inr (n, p, q, r) ↦ filled p q r i
]

build_levels-nil : (ps : Params) {vs : List Text} → build_levels ps [] ≡ ok vs → vs ≡ []
unfolding build_levels
build_levels-nil ps h = ground arith

pub build_levels-Instance :
    (ps : Params) (ls vs : List Text) → build_levels ps ls ≡ ok vs → Instance ps ls vs
build_levels-Instance ps [] vs h = rw (build_levels-nil ps h) nil
build_levels-Instance ps (l ∷ ls) vs h =
    let (v, rest, p, q, r) = build_levels-cons ps l ls h in
    rw r (build_level-Instance ps l v ls rest p (build_levels-Instance ps ls rest q))

-- Matching an instance finds its parameters, those of the pattern's own names.
pub Instance-match_levels :
    {ps : Params} {ls vs : List Text} (acc : Params)
    → Instance ps ls vs
    → (qs : Params) × (match_levels acc ls vs ≡ some qs)
      × ((n : Text)
          → lookup n qs ≡ (if contains (names_of ls) n then lookup n ps else lookup n acc))
unfolding match_levels names_of
Instance-match_levels acc nil = (acc, refl, λ n. refl)
Instance-match_levels acc (literal {l = l} p i) =
    let (qs, e, f) = Instance-match_levels acc i in
    (qs, ground (arith, ==_refl l), λ n. ground (arith, f n))
Instance-match_levels acc (filled {n = name} {v = v} p q r i) =
    let (qs, e, f) = Instance-match_levels (insert name v acc) i in
    (qs, ground arith, λ n. ground (arith, f n, lookup-insert n name v acc, ==_iff n name))

match_levels-cons :
    (acc : Params) (l v : Text) (ls vs : List Text) {qs : Params}
    → match_levels acc (l ∷ ls) (v ∷ vs) ≡ some qs
    → (placeholder l ≡ none) × (l ≡ v) × (match_levels acc ls vs ≡ some qs)
      ⊎ ((n : Text) × (placeholder l ≡ some n)
          × (is_value v ≡ true)
          × (match_levels (insert n v acc) ls vs ≡ some qs))
unfolding match_levels
match_levels-cons acc l v ls vs h = ground (arith, ==_iff l v)

-- One level matched: it is the literal, or the pattern has a placeholder there.
pub match_levels-step :
    (acc : Params) (l v : Text) (ls vs : List Text) {qs : Params}
    → match_levels acc (l ∷ ls) (v ∷ vs) ≡ some qs
    → (acc' : Params) × (match_levels acc' ls vs ≡ some qs)
      × ((l ≡ v) ⊎ (is_some (placeholder l) ≡ true))
match_levels-step acc l v ls vs h = elim (match_levels-cons acc l v ls vs h) [
  | inl (p, q, r) ↦ (acc, r, inl q)
  | inr (n, p, q, r) ↦ (insert n v acc, r, inr (ap is_some p))
]

-- A name that the rest of the pattern does not hold keeps its value.
pub match_levels-keeps :
    (acc : Params) (ls vs : List Text) (n : Text) {qs : Params}
    → match_levels acc ls vs ≡ some qs
    → contains (names_of ls) n ≡ false
    → lookup n qs ≡ lookup n acc
unfolding names_of
match_levels-keeps acc [] [] n h d = unfold match_levels in ground arith
match_levels-keeps acc [] (v ∷ vs) n h d = unfold match_levels in ground arith
match_levels-keeps acc (l ∷ ls) [] n h d = unfold match_levels in ground arith
match_levels-keeps acc (l ∷ ls) (v ∷ vs) n h d = elim (match_levels-cons acc l v ls vs h) [
  | inl (p, q, r) ↦ match_levels-keeps acc ls vs n r (ground arith)
  | inr (m, p, q, r) ↦
      ground
        (arith, match_levels-keeps (insert m v acc) ls vs n r, lookup-insert n m v acc, ==_iff n m)
]

names_of-literal :
    (l : Text) (ls : List Text) → placeholder l ≡ none → names_of (l ∷ ls) ≡ names_of ls
unfolding names_of
names_of-literal l ls h = ground arith

names_of-filled :
    (l : Text) (ls : List Text) {n : Text}
    → placeholder l ≡ some n
    → names_of (l ∷ ls) ≡ (n ∷ names_of ls)
unfolding names_of
names_of-filled l ls h = ground arith

-- A match is an instance under the parameters found, if no name stands twice.
pub match_levels-Instance :
    (acc : Params) (ls vs : List Text) {qs : Params}
    → length vs ≡ length ls
    → Distinct (names_of ls)
    → match_levels acc ls vs ≡ some qs
    → Instance qs ls vs
match_levels-Instance acc [] [] e d h = nil
match_levels-Instance acc [] (v ∷ vs) e d h = absurd (omega arith)
match_levels-Instance acc (l ∷ ls) [] e d h = absurd (omega arith)
match_levels-Instance acc (l ∷ ls) (v ∷ vs) e d h = elim (match_levels-cons acc l v ls vs h) [
  | inl (p, q, r) ↦ rw (← q) (
      literal p
        (match_levels-Instance acc ls vs (omega arith) (rw (names_of-literal l ls p) at d) r))
  | inr (n, p, q, r) ↦
      let d' : Distinct (n ∷ names_of ls) = rw (names_of-filled l ls p) at d in
      filled p
        (match_levels-keeps (insert n v acc) ls vs n r d'.0
          ∙ ground (arith, lookup-insert n n v acc, ==_refl n))
        q (match_levels-Instance (insert n v acc) ls vs (omega arith) d'.1 r)
]

-- An instance has a value for each name of the pattern.
pub Instance-names :
    {ps : Params} {ls vs : List Text} (n : Text)
    → Instance ps ls vs
    → contains (names_of ls) n ≡ true
    → is_some (lookup n ps) ≡ true
unfolding names_of
Instance-names n nil c = cc
Instance-names n (literal p i) c = ground (arith, Instance-names n i)
Instance-names n (filled {n = m} p q r i) c = ground (arith, Instance-names n i, ==_iff n m)
