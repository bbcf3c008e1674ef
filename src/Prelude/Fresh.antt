-- ===== src/Prelude/Fresh.antt =====
-- Lists none of whose elements is in another list.
use mathlib.Core.Path.{◌≡◌, refl}
use mathlib.Core.Logic.{◌↔◌}
use mathlib.Core.Bool.{false}
use mathlib.Core.List.{List, [], ◌∷◌}
use native.Mathlib.Omega.{arith}
use ss_common.Prelude.Lists.{All}
use ss_common.Prelude.Equality.{Eq, ==_iff, contains}

module _ {ℓ} {A : Type ℓ} ⦃e : Eq A⦄ where
  abbrev pub AllNew : List A → List A → Type 0
  AllNew seen xs = All (λ x. contains seen x ≡ false) xs

  pub AllNew-nil : (xs : List A) → AllNew [] xs
  AllNew-nil [] = tt
  AllNew-nil (x ∷ xs) = (refl, AllNew-nil xs)

  pub AllNew-cons :
      (x : A) (seen xs : List A) → AllNew (x ∷ seen) xs ↔ ((contains xs x ≡ false) × AllNew seen xs)
  AllNew-cons x seen [] = (λ h. (refl, tt), λ h. tt)
  AllNew-cons x seen (y ∷ ys) =
      let (there, back) = AllNew-cons x seen ys in
      (
        λ h. (
          ground (arith, (there h.1).0, h.0, ==_iff y x, ==_iff x y),
          (ground (arith, h.0), (there h.1).1),
        ),
        λ h.
            (ground (arith, h.0, h.1.0, ==_iff y x, ==_iff x y), back (ground (arith, h.0), h.1.1)),
      )
