-- ===== src/TopicCheck/Subscription.antt =====
-- The subscription filter of an entry, against the matching of MQTT topic filters.
use ss_common.Prelude.{
  ℕ, ◌≡◌, ◌≢◌, refl, Bool, true, false, ◌&&◌, ◌||◌, List, [], ◌∷◌, map, Text, codes, ◌==◌, list_eq,
  nat_eq, ==_iff, if◌then◌else◌, is_some, is_empty, length, all, All, Lacks, split, split-join,
  split-Lacks, split-ne-nil, insert, arith, Bool-cases, Option-cases, inl, inr,
}
use ss_common.Topics.{
  TopicEntry, Params, slash, levels, placeholder, is_literal, is_value, match_levels, match,
  filter_level, subscription,
}
use ss_common.TopicCheck.{pattern_errors}
use ss_common.TopicCheck.Overlap.{is_level, fits, all_fit, pattern_errors-levels}

-- How a broker matches the levels of a filter with those of a topic: `+` stands for one level, and
-- `#`, at the end, for the rest.
unfoldable pub filter_covers : List Text → List Text → Bool
filter_covers [] [] = true
filter_covers [] (v ∷ vs) = false
filter_covers (f ∷ fs) [] = f == codes "#" && is_empty fs
filter_covers (f ∷ fs) (v ∷ vs) =
    let rest = filter_covers fs vs in
    if f == codes "#" then is_empty fs else (f == codes "+" || f == v) && rest

is_some-match_levels :
    (acc : Params) (ls vs : List Text) → is_some (match_levels acc ls vs) ≡ all_fit ls vs
unfolding match_levels all_fit
is_some-match_levels acc [] [] = refl
is_some-match_levels acc [] (v ∷ vs) = refl
is_some-match_levels acc (l ∷ ls) [] = refl
is_some-match_levels acc (l ∷ ls) (v ∷ vs) = elim (Option-cases (placeholder l)) [
  | inl e ↦ ground (arith, is_some-match_levels acc ls vs)
  | inr (n, e) ↦ ground (arith, is_some-match_levels (insert n v acc) ls vs)
]

not_literal : (is_literal (codes "#") ≡ false) × (is_literal (codes "+") ≡ false)
unfolding is_literal ◌==◌ nat_eq
not_literal = (refl, refl)

plus_is_no_hash : (codes "+" == codes "#") ≡ false
unfolding ◌==◌ nat_eq list_eq
plus_is_no_hash = refl

filter_level-no_hash : (l : Text) → is_level l ≡ true → (filter_level l == codes "#") ≡ false
filter_level-no_hash l h = ground (arith, ==_iff l (codes "#"), not_literal, plus_is_no_hash)

-- On one level, the filter accepts what the pattern accepts.
filter_level-fits :
    (l v : Text)
    → is_level l ≡ true
    → is_value v ≡ true
    → (filter_level l == codes "+" || filter_level l == v) ≡ fits l v
filter_level-fits l v h k =
    ground (arith, ==_iff l (codes "+"), not_literal, ==_iff (codes "+") (codes "+"))

filter_covers-fit :
    (ls vs : List Text)
    → all is_level ls ≡ true
    → all is_value vs ≡ true
    → filter_covers (map filter_level ls) vs ≡ (length vs == length ls && all_fit ls vs)
unfolding filter_covers all_fit
filter_covers-fit [] [] h k = ground (arith, ==_iff {A = ℕ} 0 0)
filter_covers-fit [] (v ∷ vs) h k = ground (arith, ==_iff (length (v ∷ vs)) 0)
filter_covers-fit (l ∷ ls) [] h k =
    ground (arith, filter_level-no_hash l, ==_iff 0 (length (l ∷ ls)))
filter_covers-fit (l ∷ ls) (v ∷ vs) h k = ground (
  arith,
  filter_covers-fit ls vs,
  filter_level-no_hash l,
  filter_level-fits l v,
  ==_iff (length vs) (length ls),
  ==_iff (length (v ∷ vs)) (length (l ∷ ls)),
)

map_filter-Lacks : (ls : List Text) → All (Lacks slash) ls → All (Lacks slash) (map filter_level ls)
map_filter-Lacks [] h = tt
map_filter-Lacks (l ∷ ls) h = (
  elim (Bool-cases (is_some (placeholder l))) [
    | inl e ↦ rw e (unfold ◌==◌ nat_eq in refl)
    | inr e ↦ rw e (h.0)
  ],
  map_filter-Lacks ls h.1,
)

length-map_filter : (ls : List Text) → ls ≢ [] → map filter_level ls ≢ []
length-map_filter [] n h = n refl
length-map_filter (l ∷ ls) n h = cc

-- For a pattern without findings and a topic whose levels are all values, a broker delivers the
-- topic to the entry's subscription exactly when the topic matches the pattern.
pub subscription_exact :
    (e : TopicEntry) (topic : Text)
    → pattern_errors e ≡ []
    → all is_value (split slash topic) ≡ true
    → filter_covers (split slash (subscription e)) (split slash topic) ≡ is_some (match e topic)
unfolding subscription match
subscription_exact e topic clean concrete =
    let filters =
      split-join slash (map filter_level (levels e))
        (length-map_filter (levels e) (split-ne-nil slash e.pattern))
        (map_filter-Lacks (levels e) (split-Lacks slash e.pattern)) in
    let same =
      filter_covers-fit (levels e) (split slash topic) (pattern_errors-levels e clean) concrete in
    rw filters (ground (arith, same, is_some-match_levels [] (levels e) (split slash topic)))
