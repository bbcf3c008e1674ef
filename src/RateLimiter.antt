-- ===== src/RateLimiter.antt =====
-- src/ss_kit/security.py: `TokenBucket` and `RateLimiter`. Python's floats are a parameter: the
-- operations that the code calls, with the laws that its bounds rest on, which hold of floats other
-- than NaN. The clock is an argument: `check` reads it once more where it makes a bucket.
pub mod Laws
pub mod Order
mod Tests
use ss_common.Prelude.{
  ℕ, ◌≡◌, Bool, true, false, Option, none, some, List, [], ◌∷◌, ◌++◌, Text, ◌==◌, list_eq, nat_eq,
  leb, if◌then◌else◌, length, Dict, lookup, erase,
}

pub record Floats : Type 1 where
  pub Float : Type 0
  pub zero : Float
  pub one : Float
  pub add : Float → Float → Float
  pub sub : Float → Float → Float
  pub mul : Float → Float → Float
  pub max : Float → Float → Float
  pub min : Float → Float → Float
  -- a <= b
  pub le : Float → Float → Bool
  pub le-min : (a b : Float) → le (min a b) a ≡ true
  pub le_refl : (a : Float) → le a a ≡ true
  pub sub_one-le : (a c : Float) → le a c ≡ true → le (sub a one) c ≡ true

module _ (floats : Floats) where
  open floats use {Float, zero, one, add, sub, mul, max, min, le}

  pub record TokenBucket : Type 0 where
    pub capacity : Float
    pub refill_rate : Float
    pub tokens : Float
    pub last_ts : Float

  -- The tokens after the refill for the time since the last call.
  abbrev pub refilled : TokenBucket → Float → Float
  refilled b now = min b.capacity (add b.tokens (mul (max zero (sub now b.last_ts)) b.refill_rate))

  -- `TokenBucket.allow`.
  unfoldable pub allow : TokenBucket → Float → TokenBucket × Bool
  allow b now =
      if le one (refilled b now)
      then (record b { tokens = sub (refilled b now) one; last_ts = now }, true)
      else (record b { tokens = refilled b now; last_ts = now }, false)

  abbrev pub Buckets : Type 0
  Buckets = Dict Text TokenBucket

  -- The least recently seen client stands first.
  pub record RateLimiter : Type 0 where
    pub max_clients : ℕ
    pub buckets : Buckets

  -- `__init__`; none is the ValueError.
  unfoldable pub rate_limiter : ℕ → Option RateLimiter
  rate_limiter max_clients =
      if leb 1 max_clients then some (record { max_clients = max_clients; buckets = [] }) else none

  -- `_new_bucket`, for the rate and the time that it reads.
  unfoldable pub new_bucket : Float → Float → Float → TokenBucket
  new_bucket per_second burst now =
      let capacity = max one (if le burst zero then per_second else burst) in
      record {
        capacity = capacity;
        refill_rate = max zero per_second;
        tokens = capacity;
        last_ts = now;
      }

  -- `evict_oldest`.
  unfoldable pub evict_oldest : ℕ → Buckets → Buckets
  evict_oldest max_clients [] = []
  evict_oldest max_clients (b ∷ bs) =
      let rest = evict_oldest max_clients bs in
      if leb max_clients (length (b ∷ bs)) then rest else b ∷ bs

  -- A client's request: its key, what the rate and the clock say where a bucket is made, and what
  -- the clock says at the end.
  pub record Request : Type 0 where
    pub key : Text
    pub per_second : Float
    pub burst : Float
    pub created : Float
    pub now : Float

  -- The bucket that the request uses, and the table without it.
  abbrev pub taken : RateLimiter → Request → Option TokenBucket → TokenBucket × Buckets
  taken l r none = (new_bucket r.per_second r.burst r.created, evict_oldest l.max_clients l.buckets)
  taken l r (some b) = (b, erase r.key l.buckets)

  -- `check`.
  unfoldable pub check : RateLimiter → Request → RateLimiter × Bool
  check l r =
      let (bucket, others) = taken l r (lookup r.key l.buckets) in
      let (bucket', allowed) = allow bucket r.now in
      (record l { buckets = others ++ (r.key, bucket') ∷ [] }, allowed)

  unfoldable pub check_all : RateLimiter → List Request → RateLimiter
  check_all l [] = l
  check_all l (r ∷ rs) = check_all (check l r).0 rs
