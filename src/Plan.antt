-- ===== src/Plan.antt =====
-- src/ss_kit/quality/plan_model.py: the tasks of the forward plan and the tasks that they wait on.
-- Which characters `\b` takes for word characters is Unicode's table, a parameter.
pub mod Cycles
pub mod Summary
pub mod Integrity
mod Tests
use ss_common.Prelude.{
  ℕ, ◌-◌, Bool, true, false, not, ◌&&◌, ◌||◌, Option, none, some, List, [], ◌∷◌, ◌++◌, Text, codes,
  ◌==◌, list_eq, nat_eq, contains, leb, length, is_empty, all, if◌then◌else◌, is_lower, is_digit,
  split, Dict, lookup,
}

pub record Task : Type 0 where
  pub identifier : Text
  pub section : Text
  pub group : Text
  pub optional : Bool
  pub fields : Dict Text Text

-- `fields.get(key, "")`.
abbrev pub field_of : Text → Task → Text
field_of key t = elim (lookup key t.fields) [ none ↦ [] | some v ↦ v ]

-- `[a-z0-9]+(?:-[a-z0-9]+)+`, for a text of these characters.
unfoldable pub is_reference : Text → Bool
is_reference s =
    let parts = split b'-' s in leb 2 (length parts) && all (λ part. not (is_empty part)) parts

-- A round of `_TASK_REFERENCE.finditer`: the text since the last backtick, while it may be a
-- reference, and what the character ends.
unfoldable pub scan : Option Text → ℕ → Option Text × List Text
scan none c = if c == b'`' then (some [], []) else (none, [])
scan (some slug) c =
    if is_lower c || is_digit c || c == b'-'
    then (some (slug ++ c ∷ []), [])
    else if c == b'`'
    then (if is_reference slug then (none, slug ∷ []) else (some [], []))
    else (none, [])

unfoldable pub scan_all : Option Text → Text → List Text
scan_all o [] = []
scan_all o (c ∷ s) = let (o', found) = scan o c in found ++ scan_all o' s

-- `list(dict.fromkeys(...))`, without what was seen.
unfoldable pub unique : List Text → List Text → List Text
unique seen [] = []
unique seen (x ∷ xs) = elim (contains seen x) [
  | true ↦ unique seen xs
  | false ↦ x ∷ unique (x ∷ seen) xs
]

unfoldable pub references : Text → List Text
references value = unique [] (scan_all none value)

-- A character that `re.IGNORECASE` takes for the lower case letter or the sign.
abbrev pub same_letter : ℕ → ℕ → Bool
same_letter p c =
    c == p
    || (is_lower p && c == p - 32
        || (p == b'i' && (c == 304 || c == 305)
            || (p == b's' && c == 383 || p == b'k' && c == 8490)))

unfoldable pub begins : Text → Text → Bool
begins [] s = true
begins (p ∷ ps) [] = false
begins (p ∷ ps) (c ∷ s) = same_letter p c && begins ps s

abbrev pub is_marker : Text → Bool
is_marker s =
    begins (codes "optional:") s
    || begins (codes "cross-lane note:") s
    || begins (codes "blocks:") s

module _ (is_word : ℕ → Bool) where
  -- The value up to the first match of `_NON_BLOCKING`; the first argument is that a word ends here.
  unfoldable pub blocking : Bool → Text → Text
  blocking after_word [] = []
  blocking after_word (c ∷ s) =
      let rest = blocking (is_word c) s in
      if not after_word && is_marker (c ∷ s) then [] else c ∷ rest

  -- `Task.start_dependencies`.
  unfoldable pub start_dependencies : Task → List Text
  start_dependencies t = references (blocking false (field_of (codes "dependencies") t))

-- `Task.dependency_references`.
unfoldable pub dependency_references : Task → List Text
dependency_references t = references (field_of (codes "dependencies") t)
