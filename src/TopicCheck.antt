-- ===== src/TopicCheck.antt =====
-- src/ss_contracts/tooling/topics.py: the checks on a loaded topic map.
pub mod Resolve
pub mod Overlap
pub mod Subscription
use ss_common.Prelude.{
  ℕ, Bool, true, false, not, ◌&&◌, ◌||◌, Option, none, some, List, [], ◌∷◌, ◌++◌, map, Text, codes,
  ◌==◌, list_eq, nat_eq, contains, if◌then◌else◌, is_some, is_empty, length, Dict, lookup,
  sorted_set,
}
use ss_common.Contract.{ContractSpec}
use ss_common.Binding.{BindingFinding, topic_errors}
use ss_common.Topics.{TopicEntry, levels, placeholders, placeholder, is_literal, for_contract}

pub data TopicFinding : Type 0 where
  binding_rule : (pattern : Text) → BindingFinding → TopicFinding
  bad_level : (pattern level : Text) → TopicFinding
  repeated_names : (pattern : Text) → List Text → TopicFinding
  not_registered : (pattern contract : Text) → TopicFinding
  listed_twice : (pattern : Text) → TopicFinding
  ambiguous : (first second : Text) → TopicFinding
  binding_differs : (contract declared : Text) → List Text → TopicFinding

abbrev pub tail_of : List Text → List Text
tail_of [] = []
tail_of (l ∷ ls) = ls

unfoldable pub bad_levels : Text → List Text → List TopicFinding
bad_levels pattern [] = []
bad_levels pattern (l ∷ ls) =
    let rest = bad_levels pattern ls in
    if is_literal l || is_some (placeholder l) then rest else bad_level pattern l ∷ rest

-- The names that a list holds more than once.
unfoldable pub repeats : List Text → List Text
repeats [] = []
repeats (n ∷ ns) = let rest = repeats ns in if contains ns n then n ∷ rest else rest

abbrev pub repeat_errors : Text → List Text → List TopicFinding
repeat_errors pattern [] = []
repeat_errors pattern (n ∷ ns) = repeated_names pattern (sorted_set (n ∷ ns)) ∷ []

-- `_pattern_errors`.
unfoldable pub pattern_errors : TopicEntry → List TopicFinding
pattern_errors e = elim (topic_errors e.pattern) [
  | [] ↦
      bad_levels e.pattern (tail_of (levels e))
      ++ repeat_errors e.pattern (repeats (placeholders e))
  | f ∷ fs ↦ map (binding_rule e.pattern) (f ∷ fs)
]

-- `_entry_errors`.
unfoldable pub entry_errors : List Text → TopicEntry → List TopicFinding
entry_errors registered e =
    pattern_errors e
    ++ (if contains registered e.contract then [] else not_registered e.pattern e.contract ∷ [])

abbrev pub levels_meet : Text → Text → Bool
levels_meet a b = a == b || is_some (placeholder a) || is_some (placeholder b)

unfoldable pub all_meet : List Text → List Text → Bool
all_meet (a ∷ ls) (b ∷ ms) = levels_meet a b && all_meet ls ms
all_meet _ _ = true

unfoldable pub patterns_overlap : TopicEntry → TopicEntry → Bool
patterns_overlap first second =
    if length (levels first) == length (levels second)
    then all_meet (levels first) (levels second)
    else false

-- The inner loop of `_overlap_errors`.
unfoldable pub overlaps_of : TopicEntry → List TopicEntry → List TopicFinding
overlaps_of first [] = []
overlaps_of first (second ∷ more) =
    let rest = overlaps_of first more in
    if first.pattern == second.pattern
    then listed_twice first.pattern ∷ rest
    else if patterns_overlap first second
    then ambiguous first.pattern second.pattern ∷ rest
    else rest

unfoldable pub overlap_errors : List TopicEntry → List TopicFinding
overlap_errors [] = []
overlap_errors (first ∷ more) = overlaps_of first more ++ overlap_errors more

abbrev pub pattern_of : TopicEntry → Text
pattern_of e = e.pattern

abbrev pub declared_errors : List TopicEntry → Text → Option Text → List TopicFinding
declared_errors entries id none = []
declared_errors entries id (some declared) =
    let patterns = map pattern_of (for_contract entries id) in
    if patterns == declared ∷ [] then [] else binding_differs id declared patterns ∷ []

-- `_binding_errors`, over the contracts in the order of their ids.
unfoldable pub mqtt_errors : List TopicEntry → Dict Text ContractSpec → List TopicFinding
mqtt_errors entries [] = []
mqtt_errors entries ((id, spec) ∷ contracts) =
    declared_errors entries id (lookup (codes "mqttTopic") spec.binding)
    ++ mqtt_errors entries contracts

unfoldable pub entries_errors : List Text → List TopicEntry → List TopicFinding
entries_errors registered [] = []
entries_errors registered (e ∷ es) = entry_errors registered e ++ entries_errors registered es

unfoldable pub topic_map_errors :
    List TopicEntry → List Text → Dict Text ContractSpec → List TopicFinding
topic_map_errors entries registered contracts =
    entries_errors registered entries ++ overlap_errors entries ++ mqtt_errors entries contracts
