-- ===== src/Env.antt =====
-- src/ss_kit/env.py: the parser of environment files, and their layers. An index into the text is the
-- text from there on. Whether a path is a file, and its text, are a parameter.
pub mod Lines
pub mod Layers
mod Quotes
mod Merged
mod Keys
mod Written
mod Files
mod Tests
use ss_common.Prelude.{
  ℕ, zero, suc, ◌-◌, ◌+◌, Bool, true, false, not, ◌&&◌, ◌||◌, Option, none, some, List, [], ◌∷◌,
  ◌++◌, Text, codes, ◌==◌, nat_eq, list_eq, contains, leb, if◌then◌else◌, is_empty, is_some, length,
  is_lower, is_upper, is_digit, is_space, strip, lstrip, starts, drop, Dict, lookup, insert,
}
use ss_common.Result.{Result, ok, err, ◌>>=◌}

pub data EnvError : Type 0 where
  unterminated_double unterminated_single : EnvError

-- `EnvValues`
abbrev pub EnvValues : Type 0
EnvValues = Dict Text (Option Text)

abbrev pub backslash : ℕ
backslash = 92

abbrev pub quote : ℕ
quote = 34

-- `_ESCAPES`
abbrev pub escapes : Dict ℕ Text
escapes =
    (b'n', 10 ∷ [])
    ∷ (b't', 9 ∷ [])
    ∷ (b'r', 13 ∷ [])
    ∷ (b'a', 7 ∷ [])
    ∷ (b'b', 8 ∷ [])
    ∷ (b'f', 12 ∷ [])
    ∷ (b'v', 11 ∷ [])
    ∷ (34, 34 ∷ [])
    ∷ (39, 39 ∷ [])
    ∷ (92, 92 ∷ [])
    ∷ []

unfoldable pub unescaped : ℕ → Text
unescaped c = elim (lookup c escapes) [ none ↦ backslash ∷ c ∷ [] | some s ↦ s ]

-- What a class takes from the front, and what it leaves.
unfoldable pub taken_by : (ℕ → Bool) → Text → Text
taken_by class [] = []
taken_by class (c ∷ s) = let rest = taken_by class s in if class c then c ∷ rest else []

unfoldable pub left_by : (ℕ → Bool) → Text → Text
left_by class [] = []
left_by class (c ∷ s) = let rest = left_by class s in if class c then rest else c ∷ s

abbrev pub is_blank : ℕ → Bool
is_blank c = c == b' ' || c == 9

abbrev pub is_letter : ℕ → Bool
is_letter c = is_lower c || is_upper c || c == b'_'

abbrev pub is_key_char : ℕ → Bool
is_key_char c = is_letter c || is_digit c || c == b'.' || c == b'-'

-- The text before the first of a character, and after it.
unfoldable pub up_to : ℕ → Text → Option (Text × Text)
up_to q [] = none
up_to q (c ∷ s) =
    let rest = up_to q s in
    if c == q
    then some ([], s)
    else elim rest [ none ↦ none | some (before, after) ↦ some (c ∷ before, after) ]

-- A match of `_EXPAND_RE` where the text begins: the name, its default, and the length.
abbrev reference_end : Text → Text → Option (Text × Option Text × ℕ)
reference_end name rest =
    if starts (codes "}") rest
    then some (name, none, length name + 3)
    else if starts (codes ":-") rest
    then elim (up_to b'}' (drop 2 rest)) [
      | none ↦ none
      | some (default, after) ↦ some (name, some default, length name + length default + 5)
    ]
    else none

abbrev named_reference : Text → Option (Text × Option Text × ℕ)
named_reference [] = none
named_reference (c ∷ s) =
    if is_letter c
    then reference_end (c ∷ taken_by (λ d. is_letter d || is_digit d) s)
        (left_by (λ d. is_letter d || is_digit d) s)
    else none

unfoldable pub reference : Text → Option (Text × Option Text × ℕ)
reference s = if starts (codes "${") s then named_reference (drop 2 s) else none

abbrev pub default_or_empty : Option Text → Option Text → Text
default_or_empty default (some v) = v
default_or_empty (some default) none = default
default_or_empty none none = []

-- `_sub`
unfoldable pub substituted : EnvValues → Dict Text Text → Text → Option Text → Text
substituted defined environ name default =
    default_or_empty default
      (elim (lookup name defined) [ none ↦ lookup name environ | some found ↦ found ])

-- `_expand`, with the characters of a reference that are still to be passed.
unfoldable pub expand_from : EnvValues → Dict Text Text → ℕ → Text → Text
expand_from defined environ skip [] = []
expand_from defined environ (suc skip) (c ∷ s) = expand_from defined environ skip s
expand_from defined environ zero (c ∷ s) = elim (reference (c ∷ s)) [
  | none ↦ c ∷ expand_from defined environ zero s
  | some (name, default, n) ↦
      substituted defined environ name default ++ expand_from defined environ (n - 1) s
]

abbrev pub prepend : Text → Result EnvError (Text × Text) → Result EnvError (Text × Text)
prepend p (ok (v, after)) = ok (p ++ v, after)
prepend p (err e) = err e

-- `_double_quoted`, after the opening quote, and after a backslash that escapes what comes next.
unfoldable pub quoted_from : Bool → Text → Result EnvError (Text × Text)
quoted_from escaping [] = err unterminated_double
quoted_from true (c ∷ s) = prepend (unescaped c) (quoted_from false s)
quoted_from false (c ∷ s) = elim (c == backslash) [
  | true ↦ quoted_from true s
  | false ↦ elim (c == quote) [ true ↦ ok ([], s) | false ↦ prepend (c ∷ []) (quoted_from false s) ]
]

abbrev pub double_quoted : Text → Result EnvError (Text × Text)
double_quoted s = quoted_from false s

-- `_rest_of_line`
unfoldable pub rest_of_line : Text → Text
rest_of_line [] = []
rest_of_line (c ∷ s) = let rest = rest_of_line s in if c == 10 then s else rest

unfoldable pub line_of : Text → Text
line_of [] = []
line_of (c ∷ s) = let rest = line_of s in if c == 10 then c ∷ [] else c ∷ rest

-- `raw.rstrip("\r\n")`
unfoldable pub without_newlines : Text → Text
without_newlines [] = []
without_newlines (c ∷ s) =
    let rest = without_newlines s in if (c == 10 || c == 13) && is_empty rest then [] else c ∷ rest

-- What stands before `\s#`.
unfoldable pub without_comment : Text → Text
without_comment [] = []
without_comment (c ∷ s) =
    let rest = without_comment s in if is_space c && starts (codes "#") s then [] else c ∷ rest

-- `_unquoted`
unfoldable pub unquoted : Text → Text × Text
unquoted s = (strip (without_comment (without_newlines (line_of s))), rest_of_line s)

abbrev pub single_quoted : Option (Text × Text) → Result EnvError (Text × Bool × Text)
single_quoted none = err unterminated_single
single_quoted (some (v, after)) = ok (v, false, rest_of_line after)

abbrev pub expandable : Result EnvError (Text × Text) → Result EnvError (Text × Bool × Text)
expandable (err e) = err e
expandable (ok (v, after)) = ok (v, true, rest_of_line after)

-- `_value`, after the blanks.
abbrev pub value_at : Text → Result EnvError (Text × Bool × Text)
value_at [] = ok ((unquoted []).0, true, (unquoted []).1)
value_at (c ∷ s) =
    if c == 39
    then single_quoted (up_to 39 s)
    else if c == quote
    then expandable (double_quoted s)
    else ok ((unquoted (c ∷ s)).0, true, (unquoted (c ∷ s)).1)

-- `_value`
unfoldable pub value : Text → Result EnvError (Text × Bool × Text)
value s = value_at (left_by is_blank s)
