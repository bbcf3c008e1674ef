-- ===== src/Prelude/Equality.antt =====
-- Python's `==` and `in`, for every type whose equality is decided.
use Prim.Native.Nat.{ℕ}
use mathlib.Core.Path.{◌≡◌, refl, ap}
use mathlib.Core.Logic.{◌↔◌, ite, dite}
use mathlib.Core.Bool.{Bool, true, false, cond, not, ◌&&◌, ◌||◌, Bool-discrete}
use mathlib.Core.Option.{Option, none, some, none-ne-some, some-ne-none, some-injective}
use mathlib.Core.List.{List, [], ◌∷◌, ◌++◌}
use native.Mathlib.Decide.{ℕ_discrete}
use native.Mathlib.Omega.{arith}

pub record Eq {ℓ} (A : Type ℓ) : Type ℓ where
  pub dec : Discrete A

module _ {ℓ} {A : Type ℓ} ⦃e : Eq A⦄ where
  infix 50 ◌==◌
  unfoldable pub ◌==◌ : A → A → Bool
  a == b = ite (e.dec a b) true false

  abbrev pub contains : List A → A → Bool
  contains [] a = false
  contains (x ∷ xs) a = a == x || contains xs a

  -- No item stands twice.
  abbrev pub Distinct : List A → Type 0
  Distinct [] = Unit
  Distinct (x ∷ xs) = (contains xs x ≡ false) × Distinct xs

  -- `set(xs) - set(ys)`, with its repetitions.
  abbrev pub difference : List A → List A → List A
  difference [] ys = []
  difference (x ∷ xs) ys = let rest = difference xs ys in cond (contains ys x) rest (x ∷ rest)

  pub ==_iff : (a b : A) → ((a == b) ≡ true) ↔ (a ≡ b)
  unfolding ◌==◌
  ==_iff a b = ground arith

  pub contains-append :
      (a : A) (xs ys : List A) → contains (xs ++ ys) a ≡ (contains xs a || contains ys a)
  contains-append a [] ys = refl
  contains-append a (x ∷ xs) ys = ground (arith, contains-append a xs ys, ==_iff a x)

  pub difference-contains :
      (a : A) (xs ys : List A)
      → contains (difference xs ys) a ≡ (contains xs a && not (contains ys a))
  difference-contains a [] ys = refl
  difference-contains a (x ∷ xs) ys = ground (arith, difference-contains a xs ys, ==_iff a x)

  pub ==_refl : (a : A) → (a == a) ≡ true
  ==_refl a = (==_iff a a).1 refl

  option_dec : Discrete (Option A)
  option_dec none none = yes refl
  option_dec none (some b) = no (none-ne-some b)
  option_dec (some a) none = no (some-ne-none a)
  option_dec (some a) (some b) =
      dite (e.dec a b) (λ p. yes (ap some p)) (λ n. no (λ p. n (some-injective a b p)))

  instance unfoldable pub option_eq : Eq (Option A)
  unfolding option_dec
  option_eq = record { dec = option_dec }

  cons_head : {x y : A} {xs ys : List A} → (x ∷ xs) ≡ (y ∷ ys) → x ≡ y
  cons_head p = cc

  cons_tail : {x y : A} {xs ys : List A} → (x ∷ xs) ≡ (y ∷ ys) → xs ≡ ys
  cons_tail p = cc

  list_dec : Discrete (List A)
  list_dec [] [] = yes refl
  list_dec [] (y ∷ ys) = no (λ p. cc)
  list_dec (x ∷ xs) [] = no (λ p. cc)
  list_dec (x ∷ xs) (y ∷ ys) =
      let rest = list_dec xs ys in
      dite (e.dec x y) (λ p. dite rest (λ q. yes (cc)) (λ n. no (λ r. n (cons_tail r))))
        (λ n. no (λ r. n (cons_head r)))

  instance unfoldable pub list_eq : Eq (List A)
  unfolding list_dec cons_head cons_tail
  list_eq = record { dec = list_dec }

instance unfoldable pub nat_eq : Eq ℕ
unfolding ℕ_discrete
nat_eq = record { dec = ℕ_discrete }

instance unfoldable pub bool_eq : Eq Bool
bool_eq = record { dec = Bool-discrete }
