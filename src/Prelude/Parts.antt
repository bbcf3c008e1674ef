-- ===== src/Prelude/Parts.antt =====
-- Python's methods on texts: white space, prefixes, slices and parts.
use Prim.Native.Nat.{ℕ, zero, suc}
use mathlib.Core.Path.{◌≡◌, refl}
use native.Mathlib.Omega.{arith}
use mathlib.Core.Bool.{Bool, true, false, not, ◌&&◌, ◌||◌}
use mathlib.Core.List.{List, [], ◌∷◌}
use ss_common.Prelude.Tests.{leb, if◌then◌else◌}
use ss_common.Prelude.Lists.{is_empty}
use ss_common.Prelude.Equality.{◌==◌, nat_eq, list_eq, contains}
use ss_common.Prelude.Strings.{Text}

-- `str.isspace` of a character.
unfoldable pub is_space : ℕ → Bool
is_space c =
    leb 9 c && leb c 13
    || (leb 28 c && leb c 32
        || (leb 8192 c && leb c 8202
            || contains (133 ∷ 160 ∷ 5760 ∷ 8232 ∷ 8233 ∷ 8239 ∷ 8287 ∷ 12288 ∷ []) c))

unfoldable pub lstrip : Text → Text
lstrip [] = []
lstrip (c ∷ s) = let rest = lstrip s in if is_space c then rest else c ∷ s

unfoldable pub rstrip : Text → Text
rstrip [] = []
rstrip (c ∷ s) = let rest = rstrip s in if is_space c && is_empty rest then [] else c ∷ rest

-- `text.strip()`
unfoldable pub strip : Text → Text
unfolding lstrip rstrip
strip s = lstrip (rstrip s)

-- `text.startswith(prefix)`, the prefix first.
unfoldable pub starts : Text → Text → Bool
starts [] s = true
starts (p ∷ ps) [] = false
starts (p ∷ ps) (c ∷ s) = p == c && starts ps s

-- `text[n:]`
abbrev pub drop {ℓ} : {A : Type ℓ} → ℕ → List A → List A
drop zero xs = xs
drop (suc n) [] = []
drop (suc n) (x ∷ xs) = drop n xs

-- `text[:n]`
abbrev pub take {ℓ} : {A : Type ℓ} → ℕ → List A → List A
take zero xs = []
take (suc n) [] = []
take (suc n) (x ∷ xs) = x ∷ take n xs

-- White space is all that is taken off.
abbrev pub is_solid : Text → Bool
is_solid [] = true
is_solid (c ∷ s) = not (is_space c) && is_solid s

lstrip_solid : (s : Text) → is_solid s ≡ true → lstrip s ≡ s
unfolding lstrip
lstrip_solid [] h = refl
lstrip_solid (c ∷ s) h = ground arith

rstrip_solid : (s : Text) → is_solid s ≡ true → rstrip s ≡ s
unfolding rstrip
rstrip_solid [] h = refl
rstrip_solid (c ∷ s) h = ground (arith, rstrip_solid s)

pub strip_solid : (s : Text) → is_solid s ≡ true → strip s ≡ s
unfolding strip
strip_solid s h = rw (rstrip_solid s h) (lstrip_solid s h)
