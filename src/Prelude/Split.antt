-- ===== src/Prelude/Split.antt =====
-- `text.split(c)` and `c.join(parts)` for a separator of one character, and how they undo one
-- another.
use Prim.Native.Nat.{ℕ}
use mathlib.Core.Path.{◌≡◌, refl}
use mathlib.Core.Logic.{◌≢◌, inl, inr}
use mathlib.Core.Bool.{false}
use mathlib.Core.List.{List, [], ◌∷◌, ◌++◌}
use native.Mathlib.Omega.{arith}
use ss_common.Prelude.Tests.{if◌then◌else◌, Bool-cases}
use ss_common.Prelude.Equality.{◌==◌, nat_eq, ==_iff, contains}
use ss_common.Prelude.Lists.{All}
use ss_common.Prelude.Strings.{Text}

abbrev cons_first : ℕ → List Text → List Text
cons_first c [] = (c ∷ []) ∷ []
cons_first c (p ∷ ps) = (c ∷ p) ∷ ps

unfoldable pub split : ℕ → Text → List Text
split sep [] = [] ∷ []
split sep (c ∷ s) = let rest = split sep s in if c == sep then [] ∷ rest else cons_first c rest

unfoldable pub join : ℕ → List Text → Text
join sep [] = []
join sep (p ∷ []) = p
join sep (p ∷ q ∷ ps) = p ++ (sep ∷ join sep (q ∷ ps))

-- A text that does not hold the separator.
abbrev pub Lacks : ℕ → Text → Type 0
Lacks sep s = contains s sep ≡ false

pub split-ne-nil : (sep : ℕ) (s : Text) → split sep s ≢ []
unfolding split
split-ne-nil sep [] h = cc
split-ne-nil sep (c ∷ s) h = ground (arith, split-ne-nil sep s)

join-cons_nil : (sep : ℕ) (ps : List Text) → ps ≢ [] → join sep ([] ∷ ps) ≡ (sep ∷ join sep ps)
unfolding join
join-cons_nil sep [] h = absurd (h refl)
join-cons_nil sep (p ∷ ps) h = refl

join-cons_first :
    (sep c : ℕ) (ps : List Text) → ps ≢ [] → join sep (cons_first c ps) ≡ (c ∷ join sep ps)
unfolding join
join-cons_first sep c [] h = absurd (h refl)
join-cons_first sep c (p ∷ []) h = refl
join-cons_first sep c (p ∷ q ∷ ps) h = refl

pub join-split : (sep : ℕ) (s : Text) → join sep (split sep s) ≡ s
unfolding split
join-split sep [] = unfold join in refl
join-split sep (c ∷ s) = ground (
  arith,
  ==_iff c sep,
  join-split sep s,
  split-ne-nil sep s,
  join-cons_nil sep (split sep s) (split-ne-nil sep s),
  join-cons_first sep c (split sep s) (split-ne-nil sep s),
)

cons_first-Lacks :
    (sep c : ℕ) (ps : List Text)
    → (c == sep) ≡ false
    → All (Lacks sep) ps
    → All (Lacks sep) (cons_first c ps)
cons_first-Lacks sep c [] h all = (ground (arith, ==_iff c sep, ==_iff sep c), tt)
cons_first-Lacks sep c (p ∷ ps) h all = (ground (arith, ==_iff c sep, ==_iff sep c, all.0), all.1)

pub split-Lacks : (sep : ℕ) (s : Text) → All (Lacks sep) (split sep s)
unfolding split
split-Lacks sep [] = (refl, tt)
split-Lacks sep (c ∷ s) = elim (Bool-cases (c == sep)) [
  | inl e ↦ rw e (refl, split-Lacks sep s)
  | inr e ↦ rw e (cons_first-Lacks sep c (split sep s) e (split-Lacks sep s))
]

split-plain : (sep : ℕ) (p : Text) → Lacks sep p → split sep p ≡ p ∷ []
unfolding split
split-plain sep [] h = refl
split-plain sep (c ∷ s) h = ground (arith, split-plain sep s, ==_iff c sep, ==_iff sep c)

split-append : (sep : ℕ) (p s : Text) → Lacks sep p → split sep (p ++ (sep ∷ s)) ≡ p ∷ split sep s
unfolding split
split-append sep [] s h = ground (arith, ==_iff sep sep)
split-append sep (c ∷ p) s h = ground (arith, split-append sep p s, ==_iff c sep, ==_iff sep c)

pub split-join :
    (sep : ℕ) (ps : List Text) → ps ≢ [] → All (Lacks sep) ps → split sep (join sep ps) ≡ ps
unfolding join
split-join sep [] n h = absurd (n refl)
split-join sep (p ∷ []) n h = split-plain sep p h.0
split-join sep (p ∷ q ∷ ps) n h =
    ground
      (arith, split-append sep p (join sep (q ∷ ps)) h.0, split-join sep (q ∷ ps) (λ e. cc) h.1)
