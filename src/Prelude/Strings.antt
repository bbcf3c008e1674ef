-- ===== src/Prelude/Strings.antt =====
-- Python's `str` as its list of code points, with tests on characters and the order of `sorted`.
use Prim.Native.Nat.{ℕ}
use Prim.Native.Char.{code}
use Prim.Native.String.{String}
use mathlib.Core.Path.{◌≡◌, refl}
use mathlib.Core.Bool.{Bool, true, false, ◌&&◌, ◌||◌}
use mathlib.Core.List.{List, [], ◌∷◌}
use native.Mathlib.Omega.{arith}
use ss_common.Prelude.Tests.{ltb, leb, if◌then◌else◌}
use ss_common.Prelude.Lists.{is_empty}
use ss_common.Prelude.Equality.{◌==◌, nat_eq, list_eq, contains, ==_iff, ==_refl}

abbrev pub Text : Type 0
Text = List ℕ

-- The code points of a literal.
abbrev pub codes : String → Text
codes String.[] = []
codes (String.◌∷◌ c s) = code c ∷ codes s

abbrev pub is_lower : ℕ → Bool
is_lower c = leb b'a' c && leb c b'z'

abbrev pub is_upper : ℕ → Bool
is_upper c = leb b'A' c && leb c b'Z'

abbrev pub is_digit : ℕ → Bool
is_digit c = leb b'0' c && leb c b'9'

-- Python compares texts by code point, and a prefix stands before what it begins.
unfoldable pub text_ltb : Text → Text → Bool
text_ltb s [] = false
text_ltb [] (d ∷ t) = true
text_ltb (c ∷ s) (d ∷ t) = ltb c d || (c == d && text_ltb s t)

insert_sorted : Text → List Text → List Text
insert_sorted x [] = x ∷ []
insert_sorted x (y ∷ ys) =
    if x == y then y ∷ ys else if text_ltb x y then x ∷ y ∷ ys else y ∷ insert_sorted x ys

-- `sorted(set(xs))`.
unfoldable pub sorted_set : List Text → List Text
unfolding insert_sorted text_ltb
sorted_set [] = []
sorted_set (x ∷ xs) = insert_sorted x (sorted_set xs)

contains-insert_sorted :
    (a x : Text) (xs : List Text) → contains (insert_sorted x xs) a ≡ (a == x || contains xs a)
unfolding insert_sorted
contains-insert_sorted a x [] = ground arith
contains-insert_sorted a x (y ∷ ys) =
    ground (arith, contains-insert_sorted a x ys, ==_iff x y, ==_iff a x, ==_iff a y)

-- `sorted_set` keeps the members and adds none.
pub contains-sorted_set : (a : Text) (xs : List Text) → contains (sorted_set xs) a ≡ contains xs a
unfolding sorted_set
contains-sorted_set a [] = ground arith
contains-sorted_set a (x ∷ xs) =
    ground (arith, contains-insert_sorted a x (sorted_set xs), contains-sorted_set a xs)

is_empty-lacks : (xs : List Text) (a : Text) → is_empty xs ≡ true → contains xs a ≡ false
is_empty-lacks [] a h = refl
is_empty-lacks (x ∷ xs) a h = cc

pub is_empty-sorted_set : (xs : List Text) → is_empty (sorted_set xs) ≡ is_empty xs
is_empty-sorted_set [] = unfold sorted_set in refl
is_empty-sorted_set (x ∷ xs) =
    ground
      (arith, is_empty-lacks (sorted_set (x ∷ xs)) x, contains-sorted_set x (x ∷ xs), ==_refl x)
