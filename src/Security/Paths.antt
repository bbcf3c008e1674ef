-- ===== src/Security/Paths.antt =====
-- src/ss_kit/security.py: the allowlist of paths. `os.path.commonpath` is written out for POSIX; what
-- `os.path.abspath(os.path.realpath(...))` and the tests of a path say of the file system is given.
pub mod Inside
use ss_common.Prelude.{
  Bool, true, false, not, ◌&&◌, ◌||◌, Option, none, some, List, [], ◌∷◌, ◌++◌, map, Text, codes,
  ◌==◌, list_eq, nat_eq, bool_eq, if◌then◌else◌, is_empty, strip, starts, split, join,
}

pub record FileSystem : Type 0 where
  pub real_path : Text → Text
  pub is_file : Text → Bool
  pub is_dir : Text → Bool

pub data Allowed : Type 0 where
  nothing : Allowed
  text : Text → Allowed
  entries : List Text → Allowed

unfoldable pub stripped : List Text → List Text
stripped [] = []
stripped (item ∷ items) =
    let rest = stripped items in if is_empty (strip item) then rest else strip item ∷ rest

-- `parse_path_allowlist`; an item that is empty is so when stripped.
unfoldable pub parse_path_allowlist : Allowed → List Text
parse_path_allowlist nothing = []
parse_path_allowlist (text s) = stripped (split b',' s)
parse_path_allowlist (entries items) = stripped items

-- The parts of a path but for empty ones and `.`.
unfoldable pub named : List Text → List Text
named [] = []
named (p ∷ ps) = let rest = named ps in if is_empty p || p == codes "." then rest else p ∷ rest

abbrev pub components : Text → List Text
components path = named (split b'/' path)

unfoldable pub common_prefix : List Text → List Text → List Text
common_prefix (a ∷ xs) (b ∷ ys) = let rest = common_prefix xs ys in if a == b then a ∷ rest else []
common_prefix _ _ = []

abbrev pub is_absolute : Text → Bool
is_absolute path = starts (codes "/") path

abbrev pub root_of : Bool → Text
root_of true = codes "/"
root_of false = []

-- `os.path.commonpath` of two paths; none is the ValueError.
unfoldable pub commonpath : Text → Text → Option Text
commonpath a b =
    if is_absolute a == is_absolute b
    then some (root_of (is_absolute a) ++ join b'/' (common_prefix (components a) (components b)))
    else none

-- `commonpath([base_abs, resolved]) == base_abs`; a ValueError passes to the next base.
abbrev pub is_inside : Text → Text → Bool
is_inside base_abs resolved = elim (commonpath base_abs resolved) [
  | none ↦ false
  | some common ↦ common == base_abs
]

module _ (fs : FileSystem) where
  abbrev pub permitted : Bool → Bool → Text → Option Text
  permitted must_be_file must_be_dir resolved =
      if must_be_file && not (fs.is_file resolved)
      then none
      else if must_be_dir && not (fs.is_dir resolved)
      then none
      else some resolved

  -- The loop over the bases.
  unfoldable pub first_base : Bool → Bool → Text → List Text → Option Text
  first_base must_be_file must_be_dir resolved [] = none
  first_base must_be_file must_be_dir resolved (base ∷ bases) =
      let rest = first_base must_be_file must_be_dir resolved bases in
      if is_inside (fs.real_path base) resolved
      then permitted must_be_file must_be_dir resolved
      else rest

  unfoldable pub resolve_allowed_path : Text → Allowed → Bool → Bool → Option Text
  resolve_allowed_path user_path allowed must_be_file must_be_dir =
      first_base must_be_file must_be_dir (fs.real_path user_path) (parse_path_allowlist allowed)
