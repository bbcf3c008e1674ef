-- ===== src/RateLimiter/Tests.antt =====
-- Runs of the limiter, with whole numbers for the times and the tokens.
use ss_common.Prelude.{
  ℕ, ◌≡◌, ◌+◌, ◌-◌, ◌*◌, refl, true, [], ◌∷◌, Text, codes, leb, if◌then◌else◌, arith, ==_iff, ◌==◌,
  list_eq, nat_eq, lookup,
}
use ss_common.RateLimiter.{
  Floats, RateLimiter, Request, allow, new_bucket, evict_oldest, check, check_all,
}
use ss_common.RateLimiter.Laws.{IsValid, check_all-IsValid}
use ss_common.RateLimiter.Order.{check_others, kept}

abbrev larger : ℕ → ℕ → ℕ
larger a b = if leb a b then b else a

abbrev smaller : ℕ → ℕ → ℕ
smaller a b = if leb a b then a else b

smaller-leb : (a b : ℕ) → leb (smaller a b) a ≡ true
smaller-leb a b = ground arith

leb_refl : (a : ℕ) → leb a a ≡ true
leb_refl a = ground arith

pred-leb : (a c : ℕ) → leb a c ≡ true → leb (a - 1) c ≡ true
pred-leb a c h = ground arith

abbrev whole : Floats
whole = record {
  Float = ℕ;
  zero = 0;
  one = 1;
  add = λ a b. a + b;
  sub = λ a b. a - b;
  mul = λ a b. a * b;
  max = larger;
  min = smaller;
  le = leb;
  le-min = smaller-leb;
  le_refl = leb_refl;
  sub_one-le = pred-leb;
}

-- One token a second, two at once.
abbrev request : Text → ℕ → Request whole
request key now = record { key = key; per_second = 1; burst = 2; created = now; now = now }

abbrev two_clients : RateLimiter whole
two_clients = record { max_clients = 2; buckets = [] }

two_clients-IsValid : IsValid whole two_clients
two_clients-IsValid = record {
  some_client = omega arith;
  within = omega arith;
  distinct = tt;
  bounded = tt;
}

abbrev busy : RateLimiter whole
busy = check_all whole two_clients (request (codes "a") 5 ∷ request (codes "b") 5 ∷ [])

busy-runs : (check whole busy (request (codes "a") 5)).1 ≡ true
unfolding check allow lookup check_all evict_oldest ◌==◌ list_eq nat_eq new_bucket
busy-runs = refl

check_all-IsValid_example : IsValid whole (
    check_all whole two_clients
      (request (codes "a") 5 ∷ request (codes "b") 5 ∷ request (codes "c") 6 ∷ []))
check_all-IsValid_example =
    check_all-IsValid whole two_clients
      (request (codes "a") 5 ∷ request (codes "b") 5 ∷ request (codes "c") 6 ∷ [])
      two_clients-IsValid

abbrev limit : ℕ
limit = 50000

busy-IsValid : IsValid whole busy
busy-IsValid =
    check_all-IsValid whole two_clients (request (codes "a") 5 ∷ request (codes "b") 5 ∷ [])
      two_clients-IsValid

check_others_example :
    lookup (codes "b") (check whole busy (request (codes "c") 9)).0.buckets
    ≡ lookup (codes "b") (kept whole busy (codes "c"))
check_others_example =
    check_others whole busy (request (codes "c") 9) (codes "b") busy-IsValid
      (ground (arith, ==_iff (codes "b") (codes "c")))
