-- ===== src/TopicCheck/Overlap.antt =====
-- `patterns_overlap` decides whether some concrete topic matches both patterns.
use ss_common.Prelude.{
  ℕ, ◌≡◌, ◌≢◌, ◌↔◌, refl, ◌∙◌, Bool, true, ◌&&◌, ◌||◌, none, some, List, [], ◌∷◌, Text, codes, ◌==◌,
  list_eq, nat_eq, ==_iff, ==_refl, if◌then◌else◌, is_some, length, all, All, Lacks, split, join,
  split-join, split-Lacks, split-ne-nil, insert, arith, Option-cases, inl, inr,
}
use ss_common.Regex.{run, newline}
use ss_common.Binding.{topic_errors, starts_with_ss}
use ss_common.Topics.{
  TopicEntry, Params, slash, levels, placeholder, is_literal, is_literal_char, is_value,
  is_value_char, match_levels, match,
}
use ss_common.TopicCheck.{
  levels_meet, all_meet, patterns_overlap, pattern_errors, bad_levels, tail_of,
}
use ss_common.TopicCheck.Resolve.{patterns_overlap-match, pattern_errors-nil}

abbrev pub is_level : Text → Bool
is_level l = is_literal l || is_some (placeholder l)

char-value : (c : ℕ) → is_literal_char c ≡ true → is_value_char c ≡ true
unfolding is_value_char
char-value c h = ground (
  arith,
  ==_iff c slash,
  ==_iff c b'+',
  ==_iff c b'#',
  ==_iff c 0,
  ==_iff c b'_',
  ==_iff c b'.',
  ==_iff c b'-',
)

newline-value : (c : ℕ) → (c == newline) ≡ true → is_value_char c ≡ true
unfolding is_value_char
newline-value c h =
    ground (arith, ==_iff c newline, ==_iff c slash, ==_iff c b'+', ==_iff c b'#', ==_iff c 0)

run-value : (s : Text) → run is_literal_char s ≡ true → all is_value_char s ≡ true
unfolding run
run-value [] h = refl
run-value (c ∷ []) h = ground (arith, char-value c, newline-value c)
run-value (c ∷ d ∷ s) h = ground (arith, char-value c, newline-value c, run-value (d ∷ s))

-- A literal level is a value that a placeholder takes.
pub is_literal-value : (s : Text) → is_literal s ≡ true → is_value s ≡ true
unfolding is_value is_literal
is_literal-value [] h = cc
is_literal-value (c ∷ s) h = ground (arith, char-value c, run-value s)

bad_levels-nil :
    (pattern : Text) (ls : List Text) → bad_levels pattern ls ≡ [] → all is_level ls ≡ true
unfolding bad_levels
bad_levels-nil pattern [] h = refl
bad_levels-nil pattern (l ∷ ls) h = ground (arith, bad_levels-nil pattern ls)

split-ss :
    (pattern : Text)
    → starts_with_ss pattern ≡ true
    → (rest : List Text) × (split slash pattern ≡ codes "ss" ∷ rest)
unfolding split
split-ss [] h = cc
split-ss (a ∷ []) h = cc
split-ss (a ∷ b ∷ []) h = cc
split-ss (a ∷ b ∷ c ∷ s) h = (
  split slash s,
  ground (arith, ==_iff a b's', ==_iff b b's', ==_iff c slash, ==_iff a slash, ==_iff b slash),
)

topic_errors-prefix : (pattern : Text) → topic_errors pattern ≡ [] → starts_with_ss pattern ≡ true
unfolding topic_errors
topic_errors-prefix pattern h = ground arith

pattern_errors-topic : (e : TopicEntry) → pattern_errors e ≡ [] → topic_errors e.pattern ≡ []
unfolding pattern_errors
pattern_errors-topic e h = ground arith

ss-level : is_level (codes "ss") ≡ true
unfolding is_literal run
ss-level = refl

levels-after :
    (pattern : Text) (ls rest : List Text)
    → ls ≡ codes "ss" ∷ rest
    → bad_levels pattern (tail_of ls) ≡ []
    → all is_level ls ≡ true
levels-after pattern ls rest e h = rw (e, ss-level) (bad_levels-nil pattern rest (rw e at h))

-- Every level of a pattern without findings is a literal or a placeholder.
pub pattern_errors-levels :
    (e : TopicEntry) → pattern_errors e ≡ [] → all is_level (levels e) ≡ true
pattern_errors-levels e h =
    let (rest, starts) =
      split-ss e.pattern (topic_errors-prefix e.pattern (pattern_errors-topic e h)) in
    levels-after e.pattern (levels e) rest starts ((pattern_errors-nil e h).0)

-- The level `v` of a topic fits the level `l` of a pattern.
abbrev pub fits : Text → Text → Bool
fits l v = elim (placeholder l) [ none ↦ l == v | some n ↦ is_value v ]

unfoldable pub all_fit : List Text → List Text → Bool
all_fit (l ∷ ls) (v ∷ vs) = fits l v && all_fit ls vs
all_fit _ _ = true

match_levels-total :
    (acc : Params) (ls vs : List Text)
    → all_fit ls vs ≡ true
    → (ps : Params) × (match_levels acc ls vs ≡ some ps)
unfolding match_levels all_fit
match_levels-total acc [] [] h = (acc, refl)
match_levels-total acc [] (v ∷ vs) h = (acc, refl)
match_levels-total acc (l ∷ ls) [] h = (acc, refl)
match_levels-total acc (l ∷ ls) (v ∷ vs) h = elim (Option-cases (placeholder l)) [
  | inl e ↦ let (ps, k) = match_levels-total acc ls vs (ground arith) in (ps, ground arith)
  | inr (n, e) ↦
      let (ps, k) = match_levels-total (insert n v acc) ls vs (ground arith) in (ps, ground arith)
]

-- A level that fits two pattern levels which meet.
common : Text → Text → Text
common a b =
    if is_some (placeholder a) then (if is_some (placeholder b) then codes "x" else b) else a

commons : List Text → List Text → List Text
commons (a ∷ ls) (b ∷ ms) = common a b ∷ commons ls ms
commons _ _ = []

x-value : is_value (codes "x") ≡ true
unfolding is_value is_value_char ◌==◌ nat_eq
x-value = refl

common-fits :
    (a b : Text)
    → is_level a ≡ true
    → is_level b ≡ true
    → levels_meet a b ≡ true
    → (fits a (common a b) ≡ true) × (fits b (common a b) ≡ true)
unfolding common
common-fits a b h k m =
    ground
      (arith, x-value, is_literal-value a, is_literal-value b, ==_refl a, ==_refl b, ==_iff a b)

commons-fit :
    (ls ms : List Text)
    → length ls ≡ length ms
    → all is_level ls ≡ true
    → all is_level ms ≡ true
    → all_meet ls ms ≡ true
    → (all_fit ls (commons ls ms) ≡ true)
      × (all_fit ms (commons ls ms) ≡ true)
      × (length (commons ls ms) ≡ length ls)
unfolding all_fit commons all_meet
commons-fit [] [] n h k m = (refl, refl, refl)
commons-fit [] (b ∷ ms) n h k m = absurd (omega arith)
commons-fit (a ∷ ls) [] n h k m = absurd (omega arith)
commons-fit (a ∷ ls) (b ∷ ms) n h k m =
    let (p, q, r) = commons-fit ls ms (omega arith) (ground arith) (ground arith) (ground arith) in
    let (s, t) = common-fits a b (ground arith) (ground arith) (ground arith) in
    (ground arith, ground arith, omega arith)

common-Lacks : (a b : Text) → Lacks slash a → Lacks slash b → Lacks slash (common a b)
unfolding common ◌==◌ nat_eq
common-Lacks a b h k = ground arith

commons-Lacks :
    (ls ms : List Text)
    → All (Lacks slash) ls
    → All (Lacks slash) ms
    → All (Lacks slash) (commons ls ms)
unfolding commons
commons-Lacks [] ms h k = tt
commons-Lacks (a ∷ ls) [] h k = tt
commons-Lacks (a ∷ ls) (b ∷ ms) h k = (common-Lacks a b h.0 k.0, commons-Lacks ls ms h.1 k.1)

commons-ne-nil : (ls ms : List Text) → ls ≢ [] → ms ≢ [] → commons ls ms ≢ []
unfolding commons
commons-ne-nil [] ms h k e = h refl
commons-ne-nil (a ∷ ls) [] h k e = k refl
commons-ne-nil (a ∷ ls) (b ∷ ms) h k e = cc

-- A topic made of fitting levels matches.
match-all_fit :
    (e : TopicEntry) (vs : List Text)
    → vs ≢ []
    → All (Lacks slash) vs
    → length vs ≡ length (levels e)
    → all_fit (levels e) vs ≡ true
    → (ps : Params) × (match e (join slash vs) ≡ some ps)
unfolding match
match-all_fit e vs some_level lacks n h =
    let (ps, found) = match_levels-total [] (levels e) vs h in
    (
      ps,
      rw (split-join slash vs some_level lacks, (==_iff (length vs) (length (levels e))).1 n) found,
    )

abbrev pub IsAmbiguous : TopicEntry → TopicEntry → Type 0
IsAmbiguous e f =
    (topic : Text) × (ps : Params) × (qs : Params) × (match e topic ≡ some ps)
    × (match f topic ≡ some qs)

-- For patterns without findings, `patterns_overlap` is true exactly when some concrete topic
-- matches both patterns.
pub patterns_overlap_iff :
    (e f : TopicEntry)
    → pattern_errors e ≡ []
    → pattern_errors f ≡ []
    → (patterns_overlap e f ≡ true) ↔ IsAmbiguous e f
unfolding patterns_overlap
patterns_overlap_iff e f clean_e clean_f = (
  λ h.
      let vs = commons (levels e) (levels f) in
      let n : length (levels e) ≡ length (levels f) =
        ground (arith, ==_iff (length (levels e)) (length (levels f))) in
      let (p, q, m) =
        commons-fit (levels e) (levels f) n (pattern_errors-levels e clean_e)
          (pattern_errors-levels f clean_f) (ground arith) in
      let some_level =
        commons-ne-nil (levels e) (levels f) (split-ne-nil slash e.pattern)
          (split-ne-nil slash f.pattern) in
      let lacks =
        commons-Lacks (levels e) (levels f) (split-Lacks slash e.pattern)
          (split-Lacks slash f.pattern) in
      let (ps, found) = match-all_fit e vs some_level lacks m p in
      let (qs, found') = match-all_fit f vs some_level lacks (m ∙ n) q in
      (join slash vs, ps, qs, found, found'),
  λ (topic, ps, qs, h, k). patterns_overlap-match e f topic h k,
)
