-- ===== src/Binding.antt =====
-- src/ss_contracts/tooling/binding.py: the rules of the `ssBinding` property.
use ss_common.Prelude.{
  Dict, sorted_set, ℕ, Bool, false, not, ◌&&◌, ◌||◌, List, [], ◌∷◌, ◌++◌, Text, codes, ◌==◌,
  list_eq, nat_eq, contains, if◌then◌else◌, is_some, is_empty, is_lower, is_upper, is_digit, split,
}
use ss_common.Regex.{is_name_char, run_some, headed}
use ss_common.Value.{
  get, str_of, members_of, keys_of, Value, Members, null, mapping, str, end, member,
}
use ss_common.Topics.{slash, is_literal, placeholder}

pub data BindingFinding : Type 0 where
  topic_prefix : (topic : Text) → BindingFinding
  topic_level : (topic level : Text) → BindingFinding
  unknown_time_base unknown_frame bad_modality bad_unit : (value : Text) → BindingFinding
  not_a_mapping : BindingFinding
  key_not_allowed not_a_text : (key : Text) → BindingFinding

abbrev is_plus : Text → Bool
is_plus s = s == codes "+" || s == codes "+\n"

-- `_TOPIC_LEVEL_RE.match`.
unfoldable pub is_topic_level : Text → Bool
is_topic_level s = is_literal s || is_plus s || is_some (placeholder s)

-- The loop of `topic_errors`; `#` may stand for the last level only.
unfoldable pub level_errors : Text → List Text → List BindingFinding
level_errors topic [] = []
level_errors topic (level ∷ []) =
    if level == codes "#" || is_topic_level level then [] else topic_level topic level ∷ []
level_errors topic (level ∷ next ∷ more) =
    let rest = level_errors topic (next ∷ more) in
    if is_topic_level level then rest else topic_level topic level ∷ rest

abbrev pub starts_with_ss : Text → Bool
starts_with_ss (a ∷ b ∷ c ∷ s) = a == b's' && b == b's' && c == slash
starts_with_ss _ = false

unfoldable pub topic_errors : Text → List BindingFinding
topic_errors topic =
    if starts_with_ss topic then level_errors topic (split slash topic) else topic_prefix topic ∷ []

abbrev pub time_bases : List Text
time_bases = codes "utc" ∷ codes "gps" ∷ codes "tai" ∷ codes "monotonic" ∷ codes "media" ∷ []

abbrev pub frames : List Text
frames = codes "wgs84" ∷ codes "enu" ∷ codes "image" ∷ []

abbrev pub message_keys : List Text
message_keys = codes "timeBase" ∷ codes "frame" ∷ codes "modality" ∷ codes "mqttTopic" ∷ []

abbrev pub field_keys : List Text
field_keys = codes "timeBase" ∷ codes "frame" ∷ codes "unit" ∷ codes "modality" ∷ []

-- `_MODALITY_RE.match`.
unfoldable pub is_modality : Text → Bool
is_modality s = headed is_lower is_name_char s

abbrev is_unit_char : ℕ → Bool
is_unit_char c = is_upper c || is_lower c || is_digit c || contains (codes "%/.*^[]{}'-") c

-- `_UNIT_RE.match`.
unfoldable pub is_unit : Text → Bool
is_unit s = run_some is_unit_char s

unfoldable pub value_errors : Text → Text → List BindingFinding
value_errors key value =
    if key == codes "timeBase" && not (contains time_bases value)
    then unknown_time_base value ∷ []
    else if key == codes "frame" && not (contains frames value)
    then unknown_frame value ∷ []
    else if key == codes "modality" && not (is_modality value)
    then bad_modality value ∷ []
    else if key == codes "unit" && not (is_unit value)
    then bad_unit value ∷ []
    else if key == codes "mqttTopic"
    then topic_errors value
    else []

abbrev item_errors : Text → Value → List BindingFinding
item_errors key (str item) = if is_empty item then not_a_text key ∷ [] else value_errors key item
item_errors key _ = not_a_text key ∷ []

-- The loop of `binding_errors` over the items of the mapping.
unfoldable pub members_errors : List Text → Members → List BindingFinding
members_errors allowed end = []
members_errors allowed (member key item rest) =
    (if contains allowed key then item_errors key item else key_not_allowed key ∷ [])
    ++ members_errors allowed rest

unfoldable pub binding_errors : Value → List Text → List BindingFinding
binding_errors null allowed = []
binding_errors (mapping m) allowed = members_errors allowed m
binding_errors _ allowed = not_a_mapping ∷ []

module _ (shown : Value → Text) where
  abbrev pub items_of : Members → List Text → Dict Text Text
  items_of m [] = []
  items_of m (k ∷ ks) = (k, str_of shown (get k m)) ∷ items_of m ks

  -- `normalize_binding`
  unfoldable pub normalize_binding : Value → Dict Text Text
  normalize_binding v = items_of (members_of v) (sorted_set (keys_of (members_of v)))
