-- ===== src/Topics.antt =====
-- src/ss_contracts/topics.py: the runtime topic map. A topic pattern is split at each slash into
-- levels; a level is a literal or a placeholder for one level of a concrete topic.
pub mod Levels
pub mod Roundtrip
use ss_common.Prelude.{
  ℕ, suc, ◌≡◌, Bool, true, false, not, ◌&&◌, ◌||◌, Option, none, some, List, [], ◌∷◌, map, Text,
  codes, ◌==◌, list_eq, nat_eq, contains, difference, if◌then◌else◌, is_some, is_empty, is_lower,
  is_upper, is_digit, length, all, split, join, Dict, keys, lookup, insert, sorted_set,
}
use ss_common.Regex.{at_end, run_some, is_name_char}
use ss_common.Result.{Result, ok, err, ◌>>=◌, ◌>>◌, guard}
use mathlib.Core.Option

abbrev pub slash : ℕ
slash = b'/'

-- What is left of a placeholder's name behind its first character, up to the brace.
name_tail : Text → Option Text
name_tail [] = none
name_tail (c ∷ s) =
    let rest = name_tail s in
    if is_name_char c
    then Option.map (λ name. c ∷ name) rest
    else if c == b'}' && at_end s
    then some []
    else none

name_start : Text → Option Text
unfolding name_tail
name_start [] = none
name_start (c ∷ s) = if is_lower c then Option.map (λ name. c ∷ name) (name_tail s) else none

-- The name that `PLACEHOLDER_RE` captures.
unfoldable pub placeholder : Text → Option Text
unfolding name_start
placeholder [] = none
placeholder (c ∷ s) = if c == b'{' then name_start s else none

abbrev pub is_literal_char : ℕ → Bool
is_literal_char c = is_upper c || is_lower c || is_digit c || c == b'_' || c == b'.' || c == b'-'

-- `LITERAL_RE.match`.
unfoldable pub is_literal : Text → Bool
is_literal s = run_some is_literal_char s

unfoldable pub is_value_char : ℕ → Bool
is_value_char c = not (c == slash || c == b'+' || c == b'#' || c == 0)

-- `VALUE_RE.match`.
unfoldable pub is_value : Text → Bool
unfolding is_value_char
is_value s = not (is_empty s) && all is_value_char s

pub record TopicEntry : Type 0 where
  pub pattern : Text
  pub contract : Text
  pub qos : ℕ
  pub retain : Bool
  pub description : Text

abbrev pub levels : TopicEntry → List Text
levels e = split slash e.pattern

abbrev pub Params : Type 0
Params = Dict Text Text

unfoldable pub names_of : List Text → List Text
names_of [] = []
names_of (level ∷ ls) = elim (placeholder level) [ none ↦ names_of ls | some n ↦ n ∷ names_of ls ]

abbrev pub placeholders : TopicEntry → List Text
placeholders e = names_of (levels e)

-- The loop of `TopicEntry.match` over `zip(levels, values)`.
unfoldable pub match_levels : Params → List Text → List Text → Option Params
match_levels params (level ∷ ls) (value ∷ vs) = elim (placeholder level) [
  | none ↦ if level == value then match_levels params ls vs else none
  | some name ↦ if is_value value then match_levels (insert name value params) ls vs else none
]
match_levels params _ _ = some params

-- `TopicEntry.match`.
unfoldable pub match : TopicEntry → Text → Option Params
match e topic =
    let values = split slash topic in
    if length values == length (levels e) then match_levels [] (levels e) values else none

-- What `TopicEntry.build` raises: the names that differ, or the value that is no single level.
pub data BuildError : Type 0 where
  names_differ : (missing unexpected : List Text) → BuildError
  not_a_level : Text → BuildError
  key_error : Text → BuildError

abbrev pub Built : Type 0 → Type 0
Built = Result BuildError

-- The concrete level for one level of the pattern.
unfoldable pub build_level : Params → Text → Built Text
build_level params level = elim (placeholder level) [
  | none ↦ ok level
  | some name ↦ elim (lookup name params) [
    | none ↦ err (key_error name)
    | some value ↦ if is_value value then ok value else err (not_a_level value)
  ]
]

unfoldable pub build_levels : Params → List Text → Built (List Text)
build_levels params [] = ok []
build_levels params (level ∷ ls) = do
  value ← build_level params level
  values ← build_levels params ls
  ok (value ∷ values)

-- `TopicEntry.build`.
unfoldable pub build : TopicEntry → Params → Built Text
build e params = do
  let missing = sorted_set (difference (placeholders e) (keys params))
  let extra = sorted_set (difference (keys params) (placeholders e))
  guard (is_empty missing && is_empty extra) (names_differ missing extra)
  values ← build_levels params (levels e)
  ok (join slash values)

abbrev pub filter_level : Text → Text
filter_level level = if is_some (placeholder level) then codes "+" else level

-- `TopicEntry.subscription`.
unfoldable pub subscription : TopicEntry → Text
subscription e = join slash (map filter_level (levels e))

-- `TopicMap.resolve`, over the entries of the map.
unfoldable pub resolve : List TopicEntry → Text → Option (TopicEntry × Params)
resolve [] topic = none
resolve (e ∷ es) topic = elim (match e topic) [
  | none ↦ resolve es topic
  | some params ↦ some (e, params)
]

-- `TopicMap.for_contract`.
unfoldable pub for_contract : List TopicEntry → Text → List TopicEntry
for_contract [] id = []
for_contract (e ∷ es) id =
    let rest = for_contract es id in if e.contract == id then e ∷ rest else rest
