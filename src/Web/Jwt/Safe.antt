-- ===== src/Web/Jwt/Safe.antt =====
-- Which configurations of the validator are accepted.
use ss_common.Prelude.{
  ◌≡◌, ◌↔◌, ◌⊎◌, ◌≤◌, inl, inr, refl, Bool, true, false, not, ◌||◌, Option, none, some, List, [],
  ◌∷◌, Text, ◌==◌, list_eq, nat_eq, ==_iff, length, is_empty, All, arith,
}
use ss_common.Result.{Result, ok, err, guard, ◌>>◌}
use ss_common.Security.{Bytes, as_bytes, is_blank}
use ss_common.Web.Jwt.{
  JwtConfigError, no_key, no_algorithm, none_algorithm, mixed_algorithms, negative_leeway, Leeways,
  JwtConfig, Cases, any, filtered, is_none, is_hmac, long_enough, post_init,
}

any-All : (p : Text → Bool) (xs : List Text) → (any p xs ≡ false) ↔ All (λ x. p x ≡ false) xs
any-All p [] = (λ h. tt, λ h. refl)
any-All p (x ∷ xs) =
    let (there, back) = any-All p xs in
    (λ h. (ground arith, there (ground arith)), λ h. ground (arith, h.0, back h.1))

filtered-nil : (p : Text → Bool) (xs : List Text) → (filtered p xs ≡ []) ↔ All (λ x. p x ≡ false) xs
unfolding filtered
filtered-nil p [] = (λ h. tt, λ h. refl)
filtered-nil p (x ∷ xs) =
    let (there, back) = filtered-nil p xs in
    (λ h. (ground arith, there (ground arith)), λ h. ground (arith, h.0, back h.1))

length-filtered_le : (p : Text → Bool) (xs : List Text) → length (filtered p xs) ≤ length xs
unfolding filtered
length-filtered_le p [] = omega arith
length-filtered_le p (x ∷ xs) = ground (arith, length-filtered_le p xs)

filtered-All :
    (p : Text → Bool) (xs : List Text)
    → (length (filtered p xs) ≡ length xs) ↔ All (λ x. p x ≡ true) xs
unfolding filtered
filtered-All p [] = (λ h. tt, λ h. refl)
filtered-All p (x ∷ xs) =
    let (there, back) = filtered-All p xs in
    (
      λ h. (
        ground (arith, length-filtered_le p xs),
        there (ground (arith, length-filtered_le p xs)),
      ),
      λ h. ground (arith, h.0, back h.1),
    )

is_empty-nil : {A : Type 0} (xs : List A) → (is_empty xs ≡ true) ↔ (xs ≡ [])
is_empty-nil [] = (λ h. refl, λ h. refl)
is_empty-nil (x ∷ xs) = (λ h. cc, λ h. cc)

not-true : (b : Bool) → (not b ≡ true) ↔ (b ≡ false)
not-true true = (λ h. cc, λ h. cc)
not-true false = (λ h. refl, λ h. refl)

guard_ok : (b : Bool) (e : JwtConfigError) {P : Type 0} → (b ≡ true) ↔ P → (guard b e ≡ ok tt) ↔ P
guard_ok true e p = (λ h. p.0 refl, λ h. refl)
guard_ok false e p = (λ h. cc, λ h. absurd (wrong (p.1 h)))
  where
    wrong : false ≡ true → ⊥
    wrong h = cc

then_ok :
    (m k : Result JwtConfigError (Unit {0})) {P Q : Type 0}
    → (m ≡ ok tt) ↔ P
    → (k ≡ ok tt) ↔ Q
    → ((m >> k) ≡ ok tt) ↔ (P × Q)
then_ok (ok u) k p q = (λ h. (p.0 refl, q.0 h), λ h. q.1 h.1)
then_ok (err e) k p q = (λ h. cc, λ h. absurd (wrong (p.1 h.0)))
  where
    wrong : ◌≡◌ {A = Result JwtConfigError (Unit {0})} (err e) (ok tt) → ⊥
    wrong h = cc

module _ (cases : Cases) (floats : Leeways) where
  -- The key has 32 bytes at least.
  abbrev pub HmacKey : JwtConfig floats → Type 0
  HmacKey c = (b : Bytes) × (as_bytes c.key ≡ some b) × (32 ≤ length b)

  -- No algorithm is an HMAC, or each is.
  abbrev pub OneFamily : JwtConfig floats → Type 0
  OneFamily c =
      All (λ a. is_hmac cases a ≡ false) c.algorithms
      ⊎ All (λ a. is_hmac cases a ≡ true) c.algorithms

  abbrev pub IsSafe : JwtConfig floats → Type 0
  IsSafe c =
      (is_blank c.key ≡ false)
      × ((is_empty c.algorithms ≡ false)
          × (All (λ a. is_none cases a ≡ false) c.algorithms
              × (OneFamily c
                  × ((All (λ a. is_hmac cases a ≡ false) c.algorithms ⊎ HmacKey c)
                      × (floats.lt c.leeway_sec floats.zero ≡ false)))))

  or-true :
      (a b : Bool) {P Q : Type 0} → (a ≡ true) ↔ P → (b ≡ true) ↔ Q → ((a || b) ≡ true) ↔ (P ⊎ Q)
  or-true true b p q = (λ h. inl (p.0 refl), λ h. refl)
  or-true false b p q =
      (λ h. inr (q.0 h), λ h. elim h [ inl x ↦ absurd (wrong (p.1 x)) | inr y ↦ q.1 y ])
    where
      wrong : false ≡ true → ⊥
      wrong h = cc

  compose : {P Q R : Type 0} → P ↔ Q → Q ↔ R → P ↔ R
  compose p q = (λ h. q.0 (p.0 h), λ h. p.1 (q.1 h))

  family_ok :
      (c : JwtConfig floats)
      → ((is_empty (filtered (is_hmac cases) c.algorithms)
            || length (filtered (is_hmac cases) c.algorithms) == length c.algorithms)
          ≡ true)
        ↔ OneFamily c
  family_ok c =
      let algs = c.algorithms in
      let hmac = filtered (is_hmac cases) algs in
      or-true (is_empty hmac) (length hmac == length algs)
        (compose (is_empty-nil hmac) (filtered-nil (is_hmac cases) algs))
        (compose (==_iff (length hmac) (length algs)) (filtered-All (is_hmac cases) algs))

  or_left : {A B C : Type 0} → A ↔ B → (A ⊎ C) ↔ (B ⊎ C)
  or_left p = (
    λ h. elim h [ inl x ↦ inl (p.0 x) | inr y ↦ inr y ],
    λ h. elim h [ inl x ↦ inl (p.1 x) | inr y ↦ inr y ],
  )

  long_ok :
      (c : JwtConfig floats) (algs : List Text) (key : Option Bytes)
      → as_bytes c.key ≡ key
      → (long_enough cases algs key ≡ ok tt) ↔ ((algs ≡ []) ⊎ HmacKey c)
  long_ok c [] key e = (λ h. inl refl, λ h. refl)
  long_ok c (a ∷ algs) none e = (λ h. cc, λ h. elim h [ inl x ↦ cc | inr (b, k, l) ↦ cc ])
  long_ok c (a ∷ algs) (some b) e =
      (λ h. inr (b, e, ground arith), λ h. elim h [ inl x ↦ cc | inr (d, k, l) ↦ ground arith ])

  not-any : (p : Text → Bool) (xs : List Text) → (not (any p xs) ≡ true) ↔ All (λ x. p x ≡ false) xs
  not-any p xs = compose (not-true (any p xs)) (any-All p xs)

  -- A configuration is accepted just where it has a key and algorithms, none of these is `none`, they
  -- are HMACs all or none, the key has 32 bytes at least where they are, and the leeway is not
  -- negative.
  pub post_init_iff : (c : JwtConfig floats) → (post_init cases c ≡ ok tt) ↔ IsSafe c
  unfolding post_init
  post_init_iff c =
      let hmac = filtered (is_hmac cases) c.algorithms in
      then_ok _ _ (guard_ok _ no_key (not-true (is_blank c.key))) (
        then_ok _ _ (guard_ok _ no_algorithm (not-true (is_empty c.algorithms))) (
          then_ok _ _ (guard_ok _ none_algorithm (not-any (is_none cases) c.algorithms)) (
            then_ok _ _ (guard_ok _ mixed_algorithms (family_ok c)) (
              then_ok _ _
                (compose (long_ok c hmac (as_bytes c.key) refl)
                  (or_left (filtered-nil (is_hmac cases) c.algorithms)))
                (guard_ok _ negative_leeway (not-true (floats.lt c.leeway_sec floats.zero)))))))
