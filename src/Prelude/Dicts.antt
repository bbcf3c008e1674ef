-- ===== src/Prelude/Dicts.antt =====
-- Python's `dict`, in insertion order, as an association list.
use mathlib.Core.Path.{◌≡◌, refl, ap}
use mathlib.Core.Logic.{inl, inr}
use mathlib.Core.Bool.{true, false}
use Prim.Native.Nat.{◌≤◌, ◌<◌}
use ss_common.Prelude.Lists.{length}
use mathlib.Core.Option.{Option, none, some}
use mathlib.Core.List.{List, [], ◌∷◌, ◌++◌}
use native.Mathlib.Omega.{arith}
use ss_common.Prelude.Tests.{if◌then◌else◌, is_some, Bool-cases}
use ss_common.Prelude.Equality.{Eq, ◌==◌, ==_iff, contains, Distinct}

abbrev pub Dict {ℓ κ} : Type ℓ → Type κ → Type (ℓ ⊔ κ)
Dict K V = List (K × V)

abbrev pub keys {ℓ κ} : {K : Type ℓ} {V : Type κ} → Dict K V → List K
keys [] = []
keys ((k, v) ∷ d) = k ∷ keys d

module _ {ℓ κ} {K : Type ℓ} {V : Type κ} ⦃e : Eq K⦄ where
  -- `d.get(k)`
  unfoldable pub lookup : K → Dict K V → Option V
  lookup k [] = none
  lookup k ((j, v) ∷ d) = if k == j then some v else lookup k d

  -- `d[k] = v`
  unfoldable pub insert : K → V → Dict K V → Dict K V
  insert k v [] = (k, v) ∷ []
  insert k v ((j, w) ∷ d) = if k == j then (k, v) ∷ d else (j, w) ∷ insert k v d

  pub lookup-nil : (k : K) → lookup k [] ≡ none
  unfolding lookup
  lookup-nil k = refl

  pub lookup-insert :
      (j k : K) (v : V) (d : Dict K V)
      → lookup j (insert k v d) ≡ (if j == k then some v else lookup j d)
  unfolding lookup insert
  lookup-insert j k v [] = refl
  lookup-insert j k v ((i, w) ∷ d) =
      ground (arith, lookup-insert j k v d, ==_iff k i, ==_iff j i, ==_iff j k)

  pub contains-keys : (k : K) (d : Dict K V) → contains (keys d) k ≡ is_some (lookup k d)
  unfolding lookup
  contains-keys k [] = refl
  contains-keys k ((j, v) ∷ d) = ground (arith, contains-keys k d, ==_iff k j)

module _ {ℓ κ} {K : Type ℓ} {V : Type κ} ⦃e : Eq K⦄ where
  -- `d.pop(k, None)`; a dictionary has a key at most once.
  unfoldable pub erase : K → Dict K V → Dict K V
  erase k [] = []
  erase k ((j, w) ∷ d) = let rest = erase k d in if k == j then rest else (j, w) ∷ rest

  pub contains-keys-erase :
      (j k : K) (d : Dict K V)
      → contains (keys (erase k d)) j ≡ (if j == k then false else contains (keys d) j)
  unfolding erase
  contains-keys-erase j k [] = ground arith
  contains-keys-erase j k ((i, w) ∷ d) =
      ground (arith, contains-keys-erase j k d, ==_iff k i, ==_iff j i, ==_iff j k)

  pub length-erase_le : (k : K) (d : Dict K V) → length (erase k d) ≤ length d
  unfolding erase
  length-erase_le k [] = omega arith
  length-erase_le k ((i, w) ∷ d) = ground (arith, length-erase_le k d)

  pub length-erase_lt :
      (k : K) (d : Dict K V) → contains (keys d) k ≡ true → length (erase k d) < length d
  unfolding erase
  length-erase_lt k [] h = cc
  length-erase_lt k ((i, w) ∷ d) h = ground (arith, length-erase_lt k d, length-erase_le k d)

  pub Distinct-keys-erase : (k : K) (d : Dict K V) → Distinct (keys d) → Distinct (keys (erase k d))
  unfolding erase
  Distinct-keys-erase k [] h = tt
  Distinct-keys-erase k ((i, w) ∷ d) h = elim (Bool-cases (k == i)) [
    | inl q ↦ rw q (Distinct-keys-erase k d h.1)
    | inr q ↦ rw q (ground (arith, contains-keys-erase i k d, h.0), Distinct-keys-erase k d h.1)
  ]

pub keys-append {ℓ κ} :
    {K : Type ℓ} {V : Type κ} (d e : Dict K V) → keys (d ++ e) ≡ keys d ++ keys e
keys-append [] e = refl
keys-append ((k, v) ∷ d) e = ap (λ ks. k ∷ ks) (keys-append d e)
