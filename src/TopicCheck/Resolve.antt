-- ===== src/TopicCheck/Resolve.antt =====
-- A checked topic map resolves each concrete topic to one entry.
use mathlib.Core.List.{Memᴰ}
use ss_common.Prelude.{
  ◌≡◌, refl, sym, ◌∙◌, true, false, none, some, List, [], ◌∷◌, Text, list_eq, nat_eq, ==_iff,
  Distinct, length, lookup, append-eq-nil, split, arith, Option-cases, inl, inr, ◌⊎◌, Dict,
}
use ss_common.Result.{ok}
use ss_common.Contract.{ContractSpec}
use ss_common.Topics.{
  TopicEntry, Params, slash, levels, placeholders, match_levels, match, build, resolve,
}
use ss_common.Topics.Roundtrip.{match-inversion, match-build, build-match}
use ss_common.Topics.Levels.{match_levels-step}
use ss_common.TopicCheck.{
  patterns_overlap, all_meet, overlaps_of, overlap_errors, entries_errors, topic_map_errors,
  repeats, repeat_errors, bad_levels, tail_of, pattern_errors, entry_errors,
}

all_meet-of_match :
    (p q : Params) (ls ms vs : List Text) {ps qs : Params}
    → match_levels p ls vs ≡ some ps
    → match_levels q ms vs ≡ some qs
    → length vs ≡ length ls
    → all_meet ls ms ≡ true
unfolding all_meet
all_meet-of_match p q [] ms vs h k n = refl
all_meet-of_match p q (l ∷ ls) [] vs h k n = refl
all_meet-of_match p q (l ∷ ls) (m ∷ ms) [] h k n = absurd (omega arith)
all_meet-of_match p q (l ∷ ls) (m ∷ ms) (v ∷ vs) h k n =
    let (p', h', a) = match_levels-step p l v ls vs h in
    let (q', k', b) = match_levels-step q m v ms vs k in
    ground (arith, all_meet-of_match p' q' ls ms vs h' k' (omega arith), ==_iff l m)

-- Two patterns that some topic matches overlap.
pub patterns_overlap-match :
    (e f : TopicEntry) (topic : Text) {ps qs : Params}
    → match e topic ≡ some ps
    → match f topic ≡ some qs
    → patterns_overlap e f ≡ true
unfolding patterns_overlap
patterns_overlap-match e f topic h k =
    let (n, found) = match-inversion e topic h in
    let (m, found') = match-inversion f topic k in
    rw ((==_iff (length (levels e)) (length (levels f))).1 (sym n ∙ m))
      (all_meet-of_match [] [] (levels e) (levels f) (split slash topic) found found' n)

overlaps_of-nil :
    (e f : TopicEntry) (es : List TopicEntry)
    → overlaps_of e es ≡ []
    → Memᴰ f es
    → patterns_overlap e f ≡ false
unfolding overlaps_of
overlaps_of-nil e f [] h m = elim m [ ]
overlaps_of-nil e f (g ∷ es) h (Memᴰ.head p) = rw p (ground arith)
overlaps_of-nil e f (g ∷ es) h (Memᴰ.tail m) =
    ground (arith, overlaps_of-nil e f es (ground arith) m)

resolve-cases :
    (d : TopicEntry) (es : List TopicEntry) (topic : Text) {e : TopicEntry} {ps : Params}
    → resolve (d ∷ es) topic ≡ some (e, ps)
    → (resolve es topic ≡ some (e, ps)) ⊎ (e ≡ d) × (match d topic ≡ some ps)
unfolding resolve
resolve-cases d es topic h = ground arith

resolve-member :
    (es : List TopicEntry) (topic : Text) {e : TopicEntry} {ps : Params}
    → resolve es topic ≡ some (e, ps)
    → Memᴰ e es × (match e topic ≡ some ps)
resolve-member [] topic h = unfold resolve in cc
resolve-member (d ∷ es) topic h = elim (resolve-cases d es topic h) [
  | inl later ↦ let (m, k) = resolve-member es topic later in (Memᴰ.tail m, k)
  | inr (here, k) ↦ (Memᴰ.head here, rw here k)
]

resolve-hit :
    (d : TopicEntry) (es : List TopicEntry) (topic : Text) {ps : Params}
    → match d topic ≡ some ps
    → resolve (d ∷ es) topic ≡ some (d, ps)
unfolding resolve
resolve-hit d es topic h = ground arith

resolve-miss :
    (d : TopicEntry) (es : List TopicEntry) (topic : Text)
    → match d topic ≡ none
    → resolve (d ∷ es) topic ≡ resolve es topic
unfolding resolve
resolve-miss d es topic h = ground arith

overlap_errors-cons :
    (d : TopicEntry) (es : List TopicEntry)
    → overlap_errors (d ∷ es) ≡ []
    → (overlaps_of d es ≡ []) × (overlap_errors es ≡ [])
unfolding overlap_errors
overlap_errors-cons d es h = append-eq-nil _ _ h

-- Without overlaps, an entry that matches the topic is the entry that the topic resolves to.
resolve-match :
    (es : List TopicEntry) (topic : Text) (e : TopicEntry) {ps : Params}
    → overlap_errors es ≡ []
    → Memᴰ e es
    → match e topic ≡ some ps
    → resolve es topic ≡ some (e, ps)
resolve-match [] topic e clean m h = elim m [ ]
resolve-match (d ∷ es) topic e clean (Memᴰ.head p) h = rw p (resolve-hit d es topic (rw p at h))
resolve-match (d ∷ es) topic e clean (Memᴰ.tail m) h =
    let (first, rest) = overlap_errors-cons d es clean in
    elim (Option-cases (match d topic)) [
      | inl miss ↦ rw (resolve-miss d es topic miss) (resolve-match es topic e rest m h)
      | inr (qs, hit) ↦ cc (patterns_overlap-match d e topic hit h, overlaps_of-nil d e es first m)
    ]

repeats-nil : (ns : List Text) → repeats ns ≡ [] → Distinct ns
unfolding repeats
repeats-nil [] h = tt
repeats-nil (n ∷ ns) h = (ground arith, repeats-nil ns (ground arith))

repeat_errors-nil : (pattern : Text) (ns : List Text) → repeat_errors pattern ns ≡ [] → ns ≡ []
repeat_errors-nil pattern [] h = refl
repeat_errors-nil pattern (n ∷ ns) h = cc

-- A pattern without findings names each placeholder once, and has well-formed levels.
pub pattern_errors-nil :
    (e : TopicEntry)
    → pattern_errors e ≡ []
    → (bad_levels e.pattern (tail_of (levels e)) ≡ []) × (repeats (placeholders e) ≡ [])
unfolding pattern_errors
pattern_errors-nil e h =
    let bad = bad_levels e.pattern (tail_of (levels e)) in
    let twice = repeats (placeholders e) in
    ground
      (arith, append-eq-nil bad (repeat_errors e.pattern twice), repeat_errors-nil e.pattern twice)

entries_errors-member :
    (registered : List Text) (es : List TopicEntry) (e : TopicEntry)
    → entries_errors registered es ≡ []
    → Memᴰ e es
    → entry_errors registered e ≡ []
unfolding entries_errors
entries_errors-member registered [] e h m = elim m [ ]
entries_errors-member registered (d ∷ es) e h (Memᴰ.head p) = rw p ((append-eq-nil _ _ h).0)
entries_errors-member registered (d ∷ es) e h (Memᴰ.tail m) =
    entries_errors-member registered es e ((append-eq-nil _ _ h).1) m

module _ (es : List TopicEntry) (registered : List Text) (contracts : Dict Text ContractSpec)
    (clean : topic_map_errors es registered contracts ≡ []) where
  clean_entries : (entries_errors registered es ≡ []) × (overlap_errors es ≡ [])
  unfolding topic_map_errors
  clean_entries = let (ab, c) = append-eq-nil _ _ clean in append-eq-nil _ _ ab

  clean-Distinct : (e : TopicEntry) → Memᴰ e es → Distinct (placeholders e)
  unfolding entry_errors
  clean-Distinct e m =
      let entry = entries_errors-member registered es e clean_entries.0 m in
      repeats-nil (placeholders e) ((pattern_errors-nil e ((append-eq-nil _ _ entry).0)).1)

  -- In a map without findings, at most one entry matches a concrete topic: one that does is the
  -- entry that the topic resolves to.
  pub resolve_unique :
      (e : TopicEntry) (topic : Text) (ps : Params)
      → Memᴰ e es
      → match e topic ≡ some ps
      → resolve es topic ≡ some (e, ps)
  resolve_unique e topic ps m h = resolve-match es topic e clean_entries.1 m h

  -- In a map without findings, a topic that an entry built resolves to that entry, with the
  -- parameters that built it.
  pub resolve-build :
      (e : TopicEntry) (ps : Params) (topic : Text)
      → Memᴰ e es
      → build e ps ≡ ok topic
      → (qs : Params) × (resolve es topic ≡ some (e, qs)) × ((n : Text) → lookup n qs ≡ lookup n ps)
  resolve-build e ps topic m h =
      let (qs, found, same) = match-build e ps topic h in
      (qs, resolve_unique e topic qs m found, same)

  -- In a map without findings, what a topic resolves to is an entry of the map and builds the topic.
  pub build-resolve :
      (e : TopicEntry) (ps : Params) (topic : Text)
      → resolve es topic ≡ some (e, ps)
      → Memᴰ e es × (build e ps ≡ ok topic)
  build-resolve e ps topic h =
      let (m, found) = resolve-member es topic h in
      (m, build-match e topic ps (clean-Distinct e m) found)
