-- ===== src/RateLimiter/Laws.antt =====
-- The table stays within its bound, holds a client once, and no bucket is over its capacity.
use ss_common.Prelude.{
  ℕ, ◌≡◌, ◌≤◌, ◌<◌, refl, ap, ◌∙◌, true, false, Option, none, some, List, [], ◌∷◌, ◌++◌, Text, ◌==◌,
  list_eq, nat_eq, ==_iff, contains, contains-append, Distinct, leb, length, length-append, keys,
  keys-append, lookup, erase, contains-keys, contains-keys-erase, length-erase_lt,
  Distinct-keys-erase, is_some, arith, Bool-cases, inl, inr,
}
use ss_common.RateLimiter.{
  Floats, TokenBucket, Buckets, RateLimiter, Request, allow, refilled, evict_oldest, taken, check,
  check_all,
}

module _ (floats : Floats) where
  open floats use {le, le-min, le_refl, sub_one-le}

  -- A bucket holds no more tokens than its capacity.
  abbrev pub IsBounded : TokenBucket floats → Type 0
  IsBounded b = le b.tokens b.capacity ≡ true

  abbrev AllBounded : Buckets floats → Type 0
  AllBounded [] = Unit
  AllBounded ((k, b) ∷ bs) = IsBounded b × AllBounded bs

  pub record IsValid (l : RateLimiter floats) : Type 0 where
    pub some_client : 1 ≤ l.max_clients
    pub within : length l.buckets ≤ l.max_clients
    pub distinct : Distinct (keys l.buckets)
    pub bounded : AllBounded l.buckets

  pub allow-IsBounded :
      (b : TokenBucket floats) (now : floats.Float) → IsBounded (allow floats b now).0
  unfolding allow
  allow-IsBounded b now = elim (Bool-cases (le floats.one (refilled floats b now))) [
    | inl e ↦ rw e (sub_one-le _ _ (le-min _ _))
    | inr e ↦ rw e (le-min _ _)
  ]

  evict_oldest-lt :
      (max : ℕ) (bs : Buckets floats) → 1 ≤ max → length (evict_oldest floats max bs) < max
  unfolding evict_oldest
  evict_oldest-lt max [] h = omega arith
  evict_oldest-lt max (b ∷ bs) h = ground (arith, evict_oldest-lt max bs h)

  evict_oldest-lacks :
      (max : ℕ) (bs : Buckets floats) (k : Text)
      → contains (keys bs) k ≡ false
      → contains (keys (evict_oldest floats max bs)) k ≡ false
  unfolding evict_oldest
  evict_oldest-lacks max [] k h = refl
  evict_oldest-lacks max ((j, b) ∷ bs) k h = ground (arith, evict_oldest-lacks max bs k, ==_iff k j)

  evict_oldest-Distinct :
      (max : ℕ) (bs : Buckets floats)
      → Distinct (keys bs)
      → Distinct (keys (evict_oldest floats max bs))
  unfolding evict_oldest
  evict_oldest-Distinct max [] h = tt
  evict_oldest-Distinct max ((k, b) ∷ bs) h = elim (Bool-cases (leb max (length ((k, b) ∷ bs)))) [
    | inl e ↦ rw e (evict_oldest-Distinct max bs h.1)
    | inr e ↦ rw e h
  ]

  evict_oldest-AllBounded :
      (max : ℕ) (bs : Buckets floats) → AllBounded bs → AllBounded (evict_oldest floats max bs)
  unfolding evict_oldest
  evict_oldest-AllBounded max [] h = tt
  evict_oldest-AllBounded max ((k, b) ∷ bs) h = elim (Bool-cases (leb max (length ((k, b) ∷ bs)))) [
    | inl e ↦ rw e (evict_oldest-AllBounded max bs h.1)
    | inr e ↦ rw e h
  ]

  erase-AllBounded : (k : Text) (bs : Buckets floats) → AllBounded bs → AllBounded (erase k bs)
  unfolding erase
  erase-AllBounded k [] h = tt
  erase-AllBounded k ((j, b) ∷ bs) h = elim (Bool-cases (k == j)) [
    | inl e ↦ rw e (erase-AllBounded k bs h.1)
    | inr e ↦ rw e (h.0, erase-AllBounded k bs h.1)
  ]

  snoc-AllBounded :
      (bs : Buckets floats) (k : Text) (b : TokenBucket floats)
      → AllBounded bs
      → IsBounded b
      → AllBounded (bs ++ (k, b) ∷ [])
  snoc-AllBounded [] k b h g = (g, tt)
  snoc-AllBounded (x ∷ bs) k b h g = (h.0, snoc-AllBounded bs k b h.1 g)

  Distinct-snoc :
      (ks : List Text) (k : Text) → Distinct ks → contains ks k ≡ false → Distinct (ks ++ k ∷ [])
  Distinct-snoc [] k d h = (refl, tt)
  Distinct-snoc (j ∷ ks) k d h = (
    ground (arith, contains-append j ks (k ∷ []), ==_iff j k, ==_iff k j, d.0),
    Distinct-snoc ks k d.1 (ground arith),
  )

  -- What the table needs before the client is put at its end.
  record Room (l : RateLimiter floats) (r : Request floats) (others : Buckets floats) : Type 0 where
    room : length others < l.max_clients
    distinct : Distinct (keys others)
    absent : contains (keys others) r.key ≡ false
    bounded : AllBounded others

  taken-Room :
      (l : RateLimiter floats) (r : Request floats) (o : Option (TokenBucket floats))
      → IsValid l
      → lookup r.key l.buckets ≡ o
      → Room l r (taken floats l r o).1
  taken-Room l r none v e = record {
    room = evict_oldest-lt l.max_clients l.buckets v.some_client;
    distinct = evict_oldest-Distinct l.max_clients l.buckets v.distinct;
    absent =
        evict_oldest-lacks l.max_clients l.buckets r.key
          (contains-keys r.key l.buckets ∙ ap is_some e);
    bounded = evict_oldest-AllBounded l.max_clients l.buckets v.bounded;
  }
  taken-Room l r (some b) v e = record {
    room = ground (arith, length-erase_lt r.key l.buckets present, v.within);
    distinct = Distinct-keys-erase r.key l.buckets v.distinct;
    absent = ground (arith, contains-keys-erase r.key r.key l.buckets, ==_iff r.key r.key);
    bounded = erase-AllBounded r.key l.buckets v.bounded;
  }
    where
      present : contains (keys l.buckets) r.key ≡ true
      present = contains-keys r.key l.buckets ∙ ap is_some e

  snoc-IsValid :
      (l : RateLimiter floats) (r : Request floats) (b : TokenBucket floats)
      (others : Buckets floats)
      → IsValid l
      → Room l r others
      → IsBounded b
      → IsValid (record l { buckets = others ++ (r.key, b) ∷ [] })
  snoc-IsValid l r b others v room g = record {
    some_client = v.some_client;
    within = omega (arith, length-append others ((r.key, b) ∷ []), room.room);
    distinct =
        rw (keys-append others ((r.key, b) ∷ []))
          (Distinct-snoc (keys others) r.key room.distinct room.absent);
    bounded = snoc-AllBounded others r.key b room.bounded g;
  }

  check-IsValid :
      (l : RateLimiter floats) (r : Request floats) → IsValid l → IsValid (check floats l r).0
  unfolding check
  check-IsValid l r v =
      let (b, others) = taken floats l r (lookup r.key l.buckets) in
      snoc-IsValid l r (allow floats b r.now).0 others v
        (taken-Room l r (lookup r.key l.buckets) v refl) (allow-IsBounded b r.now)

  -- Whatever the requests, a valid limiter holds at most `max_clients` clients, each once, and no
  -- bucket has more tokens than its capacity.
  pub check_all-IsValid :
      (l : RateLimiter floats) (rs : List (Request floats))
      → IsValid l
      → IsValid (check_all floats l rs)
  unfolding check_all
  check_all-IsValid l [] v = v
  check_all-IsValid l (r ∷ rs) v = check_all-IsValid (check floats l r).0 rs (check-IsValid l r v)
