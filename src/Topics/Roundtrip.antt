-- ===== src/Topics/Roundtrip.antt =====
-- `build` and `match` undo one another.
use ss_common.Prelude.{
  ◌≡◌, ◌≢◌, refl, sym, ap, subst, ◌∙◌, Bool, true, false, none, some, List, [], ◌∷◌, Text, list_eq,
  nat_eq, ==_iff, ==_refl, contains, difference, Distinct, is_empty, length, All, Lacks, keys,
  lookup, contains-keys, lookup-nil, sorted_set, is_empty-sorted_set, split, join, join-split,
  split-join, split-Lacks, split-ne-nil, arith, Bool-cases, inl, inr, ◌&&◌,
}
use ss_common.Result.{ok, err, ◌>>=◌, ◌>>◌, guard}
use ss_common.Topics.{
  TopicEntry, Params, Built, BuildError, slash, levels, placeholders, match_levels, match, build,
}
use ss_common.Topics.Levels.{
  Instance, Instance-length, Instance-Lacks, Instance-build_levels, build_levels-Instance,
  Instance-match_levels, match_levels-Instance, match_levels-keeps, Instance-names,
}

-- No item of `xs` lies outside `ys`.
abbrev Within : List Text → List Text → Type 0
Within xs ys = (a : Text) → contains xs a ≡ true → contains ys a ≡ true

difference-Within : (xs ys : List Text) → difference xs ys ≡ [] → Within xs ys
difference-Within [] ys h a m = cc
difference-Within (x ∷ xs) ys h a m =
    ground (arith, difference-Within xs ys, difference-Within xs ys (ground arith) a, ==_iff a x)

Within-difference : (xs ys : List Text) → Within xs ys → difference xs ys ≡ []
Within-difference [] ys h = refl
Within-difference (x ∷ xs) ys h =
    ground (arith, h x, ==_refl x, Within-difference xs ys (λ a m. h a (ground arith)))

-- The test that `build` makes before it goes through the levels.
sorted_difference-Within :
    (xs ys : List Text) → is_empty (sorted_set (difference xs ys)) ≡ true → Within xs ys
sorted_difference-Within xs ys h =
    difference-Within xs ys (ground (arith, is_empty-sorted_set (difference xs ys)))

Within-sorted_difference :
    (xs ys : List Text) → Within xs ys → is_empty (sorted_set (difference xs ys)) ≡ true
Within-sorted_difference xs ys h =
    ground (arith, is_empty-sorted_set (difference xs ys), Within-difference xs ys h)

guarded :
    (a b : Bool) (e : BuildError) (k : Built Text) {t : Text}
    → (guard (a && b) e >> k) ≡ ok t
    → (a ≡ true) × (b ≡ true) × (k ≡ ok t)
guarded true true e k h = (refl, refl, h)
guarded true false e k h = cc
guarded false b e k h = cc

joined :
    (r : Built (List Text)) {t : Text}
    → (r >>= λ vs. ok (join slash vs)) ≡ ok t
    → (vs : List Text) × (r ≡ ok vs) × (join slash vs ≡ t)
joined (ok vs) h = (vs, refl, ground arith)
joined (err e) h = cc

module _ (e : TopicEntry) where
  build-inversion :
      (ps : Params) {t : Text}
      → build e ps ≡ ok t
      → (vs : List Text) × Within (placeholders e) (keys ps)
        × Within (keys ps) (placeholders e)
        × Instance ps (levels e) vs
        × (join slash vs ≡ t)
  unfolding build
  build-inversion ps h =
      let (missing, extra, k) = guarded _ _ _ _ h in
      let (vs, made, text) = joined _ k in
      (
        vs,
        sorted_difference-Within _ _ missing,
        sorted_difference-Within _ _ extra,
        build_levels-Instance ps (levels e) vs made,
        text,
      )

  build-Instance :
      (ps : Params) (vs : List Text)
      → Within (placeholders e) (keys ps)
      → Within (keys ps) (placeholders e)
      → Instance ps (levels e) vs
      → build e ps ≡ ok (join slash vs)
  unfolding build
  build-Instance ps vs names keyed i = rw (
    Within-sorted_difference (placeholders e) (keys ps) names,
    Within-sorted_difference (keys ps) (placeholders e) keyed,
    Instance-build_levels i,
  )

  Instance-ne-nil : {ps : Params} {vs : List Text} → Instance ps (levels e) vs → vs ≢ []
  Instance-ne-nil {ps} {vs} i h =
      split-ne-nil slash e.pattern (length-zero (levels e) (sym (Instance-length i) ∙ ap length h))
    where
      length-zero : (xs : List Text) → length xs ≡ 0 → xs ≡ []
      length-zero [] p = refl
      length-zero (x ∷ xs) p = absurd (omega arith)

-- What is outside the pattern's names has no value among parameters that stay within them.
absent :
    (names : List Text) (ps : Params) (n : Text)
    → Within (keys ps) names
    → contains names n ≡ false
    → lookup n ps ≡ none
absent names ps n h c = ground (arith, contains-keys n ps, h n)

match-Instance :
    (e : TopicEntry) (ps : Params) (vs : List Text)
    → Instance ps (levels e) vs
    → All (Lacks slash) vs
    → vs ≢ []
    → match e (join slash vs) ≡ match_levels [] (levels e) vs
unfolding match
match-Instance e ps vs i lacks some_level =
    rw (split-join slash vs some_level lacks, (==_iff _ _).1 (Instance-length i))

-- A topic that `build` made from a pattern matches the pattern, and the match finds every parameter
-- that was given, and nothing else.
pub match-build :
    (e : TopicEntry) (ps : Params) (t : Text)
    → build e ps ≡ ok t
    → (qs : Params) × (match e t ≡ some qs) × ((n : Text) → lookup n qs ≡ lookup n ps)
match-build e ps t h =
    let (vs, names, keyed, i, text) = build-inversion e ps h in
    let (qs, found, values) = Instance-match_levels [] i in
    let lacks = Instance-Lacks i (split-Lacks slash e.pattern) in
    (
      qs,
      subst (λ topic. match e topic ≡ some qs) text
          (match-Instance e ps vs i lacks (Instance-ne-nil e i) ∙ found),
      λ n. elim (Bool-cases (contains (placeholders e) n)) [
        | inl c ↦ values n ∙ rw c
        | inr c ↦
            values n
            ∙ rw c (ground (arith, absent (placeholders e) ps n keyed c, lookup-nil {V = Text} n))
      ],
    )

pub match-inversion :
    (e : TopicEntry) (t : Text) {ps : Params}
    → match e t ≡ some ps
    → (length (split slash t) ≡ length (levels e))
      × (match_levels [] (levels e) (split slash t) ≡ some ps)
unfolding match
match-inversion e t h = ground (arith, ==_iff (length (split slash t)) (length (levels e)))

found-Within :
    (e : TopicEntry) (t : Text) (ps : Params)
    → match_levels [] (levels e) (split slash t) ≡ some ps
    → Within (keys ps) (placeholders e)
found-Within e t ps h n c = elim (Bool-cases (contains (placeholders e) n)) [
  | inl k ↦ k
  | inr k ↦ ground (
    arith,
    match_levels-keeps [] (levels e) (split slash t) n h k,
    contains-keys n ps,
    lookup-nil {V = Text} n,
  )
]

-- If no placeholder name stands twice in a pattern, the parameters that a match finds build the
-- very topic that was matched.
pub build-match :
    (e : TopicEntry) (t : Text) (ps : Params)
    → Distinct (placeholders e)
    → match e t ≡ some ps
    → build e ps ≡ ok t
build-match e t ps distinct h =
    let (same, found) = match-inversion e t h in
    let i = match_levels-Instance [] (levels e) (split slash t) same distinct found in
    build-Instance e ps (split slash t) (λ n c. rw (contains-keys n ps) (Instance-names n i c))
      (found-Within e t ps found) i
    ∙ ap ok (join-split slash t)
