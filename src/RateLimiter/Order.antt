-- ===== src/RateLimiter/Order.antt =====
-- Which clients a request leaves in the table.
use ss_common.Prelude.{
  ℕ, ◌≡◌, ◌≢◌, ◌<◌, refl, ap, ◌∙◌, false, ◌||◌, Option, none, some, [], ◌∷◌, ◌++◌, Text, list_eq,
  nat_eq, ==_iff, contains, ltb, if◌then◌else◌, length, Dict, keys, lookup, erase, contains-keys,
  is_some, arith, Bool-cases, inl, inr,
}
use ss_common.RateLimiter.{
  Floats, TokenBucket, Buckets, RateLimiter, Request, allow, evict_oldest, taken, check,
}
use ss_common.RateLimiter.Laws.{IsValid}

module _ {V : Type 0} where
  -- All entries but the first.
  abbrev pub later : Dict Text V → Dict Text V
  later [] = []
  later (x ∷ d) = d

  lookup-erase_ne : (j k : Text) (d : Dict Text V) → j ≢ k → lookup j (erase k d) ≡ lookup j d
  unfolding lookup erase
  lookup-erase_ne j k [] n = refl
  lookup-erase_ne j k ((i, v) ∷ d) n =
      ground (arith, lookup-erase_ne j k d n, ==_iff k i, ==_iff j i, n)

  lookup-snoc_ne :
      (j k : Text) (v : V) (d : Dict Text V) → j ≢ k → lookup j (d ++ (k, v) ∷ []) ≡ lookup j d
  unfolding lookup
  lookup-snoc_ne j k v [] n = ground (arith, ==_iff j k, n)
  lookup-snoc_ne j k v ((i, w) ∷ d) n = ground (arith, lookup-snoc_ne j k v d n)

  lookup-snoc_self :
      (k : Text) (v : V) (d : Dict Text V)
      → contains (keys d) k ≡ false
      → lookup k (d ++ (k, v) ∷ []) ≡ some v
  unfolding lookup
  lookup-snoc_self k v [] h = ground (arith, ==_iff k k)
  lookup-snoc_self k v ((i, w) ∷ d) h = ground (arith, lookup-snoc_self k v d, ==_iff k i)

module _ (floats : Floats) where
  evict_oldest_short :
      (max : ℕ) (bs : Buckets floats) → length bs < max → evict_oldest floats max bs ≡ bs
  unfolding evict_oldest
  evict_oldest_short max [] h = refl
  evict_oldest_short max (b ∷ bs) h = ground arith

  -- One client at most makes room.
  evict_oldest_full :
      (max : ℕ) (bs : Buckets floats) → length bs ≡ max → evict_oldest floats max bs ≡ later bs
  unfolding evict_oldest
  evict_oldest_full max [] h = refl
  evict_oldest_full max (b ∷ bs) h = ground (arith, evict_oldest_short max bs)

  -- What a request may take from another client: its bucket, if the table is full, the client that
  -- asks is not in it, and the other one is the least recently seen.
  abbrev pub kept : RateLimiter floats → Text → Buckets floats
  kept l key =
      if contains (keys l.buckets) key || ltb (length l.buckets) l.max_clients
      then l.buckets
      else later l.buckets

  taken-others :
      (l : RateLimiter floats) (r : Request floats) (o : Option (TokenBucket floats)) (j : Text)
      → IsValid floats l
      → lookup r.key l.buckets ≡ o
      → j ≢ r.key
      → lookup j (taken floats l r o).1 ≡ lookup j (kept l r.key)
  taken-others l r none j v e n = elim (Bool-cases (ltb (length l.buckets) l.max_clients)) [
    | inl short ↦ rw (
      contains-keys r.key l.buckets ∙ ap is_some e,
      short,
      evict_oldest_short l.max_clients l.buckets (ground arith),
    )
    | inr full ↦ rw (
      contains-keys r.key l.buckets ∙ ap is_some e,
      full,
      evict_oldest_full l.max_clients l.buckets (ground (arith, v.within)),
    )
  ]
  taken-others l r (some b) j v e n =
      rw (contains-keys r.key l.buckets ∙ ap is_some e) (lookup-erase_ne j r.key l.buckets n)

  -- A request changes no other client's bucket, but that a request of a new client to a full table
  -- drops the least recently seen one.
  pub check_others :
      (l : RateLimiter floats) (r : Request floats) (j : Text)
      → IsValid floats l
      → j ≢ r.key
      → lookup j (check floats l r).0.buckets ≡ lookup j (kept l r.key)
  unfolding check
  check_others l r j v n =
      let (b, others) = taken floats l r (lookup r.key l.buckets) in
      lookup-snoc_ne j r.key (allow floats b r.now).0 others n
      ∙ taken-others l r (lookup r.key l.buckets) j v refl n
