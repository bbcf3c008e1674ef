-- ===== src/Rules.antt =====
-- src/ss_contracts/tooling/rules.py: the authoring rules of contracts. What Python's `str` gives for
-- values that are no texts, and the names of Pydantic's `BaseModel`, are parameters. Records nest one
-- level: the rules for the properties of a record are the same, but for what is an object.
pub mod Words
pub mod Properties
pub mod Clean
use ss_common.Prelude.{
  ℕ, Bool, true, false, not, ◌&&◌, ◌||◌, Option, none, some, List, [], ◌∷◌, ◌++◌, map, Text, codes,
  ◌==◌, list_eq, nat_eq, contains, if◌then◌else◌, is_empty, is_some, and_then, option_eq, ltb, ◌+◌,
  sorted_set,
}
use ss_common.Value.{
  Value, Items, Members, null, bool, int, str, list, mapping, end, member, find, get, get_or, items,
  is_true, str_of, keys_of, is_text, is_mapping, members_of,
}
use ss_common.Types.{
  logical_to_kinds, canonical_kind, kind_compatible, kinds_of, item_kinds, numeric_kinds, json_kind,
  record_kind, array_kind,
}
use ss_common.Binding.{BindingFinding, binding_errors, field_keys, message_keys}
use ss_common.Rules.Words.{
  api_version, statuses, is_contract_id, is_version, is_field_name, is_record_name, options_of,
  is_reserved,
}

pub data RuleFinding : Type 0 where
  bad_api_version no_purpose not_one_object no_properties : RuleFinding
  bad_id bad_version bad_status : Value → RuleFinding
  of_schema : BindingFinding → RuleFinding
  json_with_properties nested_record empty_record no_items : RuleFinding
  bad_item_kind bad_item_type : Value → RuleFinding
  unknown_type : Text → RuleFinding
  bad_kind : Value → Text → RuleFinding
  record_name_elsewhere bad_record_name : RuleFinding
  unsupported_option : Text → RuleFinding
  no_timezone : RuleFinding
  bad_name : Value → RuleFinding
  duplicated_name reserved_name : Text → RuleFinding
  no_description no_required unit_elsewhere not_a_property : RuleFinding
  of_binding : BindingFinding → RuleFinding
  in_property : Value → RuleFinding → RuleFinding
  record_name_twice : Text → RuleFinding

abbrev pub rule_if : Bool → RuleFinding → List RuleFinding
rule_if b f = if b then f ∷ [] else []

-- `find_custom_property`, over the items of the list.
unfoldable pub find_in : Text → Items → Value
find_in name Items.nil = null
find_in name (Items.cons v vs) =
    let rest = find_in name vs in
    if is_mapping v && is_text name (get (codes "property") (members_of v))
    then get (codes "value") (members_of v)
    else rest

abbrev pub find_custom_property : Value → Text → Value
find_custom_property (list vs) name = find_in name vs
find_custom_property _ name = null

-- `schema_object`
abbrev pub schema_object : Value → Option Members
schema_object (list (Items.cons (mapping m) Items.nil)) = some m
schema_object _ = none

-- `record_name`
abbrev pub record_name : Members → Value
record_name prop = get (codes "recordName") (
    members_of
      (find_custom_property (get (codes "customProperties") prop) (codes "fieldGeneration")))

-- `_name_errors`, with the names seen afterwards.
unfoldable pub name_errors : List Text → Value → List Text → List RuleFinding × List Text
name_errors model_names (str name) seen =
    if not (is_field_name name)
    then (bad_name (str name) ∷ [], seen)
    else if contains seen name
    then (duplicated_name name ∷ [], seen)
    else if is_reserved model_names name
    then (reserved_name name ∷ [], name ∷ seen)
    else ([], name ∷ seen)
name_errors model_names v seen = (bad_name v ∷ [], seen)

abbrev pub option_errors : List Text → List Text → List RuleFinding
option_errors supported [] = []
option_errors supported (key ∷ keys) =
    rule_if (not (contains supported key)) (unsupported_option key) ++ option_errors supported keys

abbrev pub is_false : Value → Bool
is_false (bool b) = not b
is_false _ = false

abbrev pub is_bool : Value → Bool
is_bool (bool b) = true
is_bool _ = false

-- `status not in STATUSES`, which hashes the status.
abbrev pub has_status : Value → Option Bool
has_status (str s) = some (contains statuses s)
has_status (list vs) = none
has_status (mapping m) = none
has_status _ = some false

abbrev pub is_record_text : Value → Bool
is_record_text (str s) = is_record_name s
is_record_text _ = false

abbrev pub is_null : Value → Bool
is_null null = true
is_null _ = false

abbrev pub text_list : Value → List Text
text_list (str s) = s ∷ []
text_list _ = []

-- The names of `_duplicate_record_errors`.
unfoldable pub record_names : Items → List Text
record_names Items.nil = []
record_names (Items.cons v vs) = text_list (record_name (members_of v)) ++ record_names vs

abbrev pub count : Text → List Text → ℕ
count n [] = 0
count n (m ∷ ms) = (if n == m then 1 else 0) + count n ms

unfoldable pub counted_twice : List Text → List Text → List Text
counted_twice names [] = []
counted_twice names (n ∷ ns) =
    let rest = counted_twice names ns in if ltb 1 (count n names) then n ∷ rest else rest

unfoldable pub duplicate_record_errors : Items → List RuleFinding
duplicate_record_errors props =
    map record_name_twice (sorted_set (counted_twice (record_names props) (record_names props)))

module _ (shown : Value → Text) where
  -- `canonical_kind(str(body.get("physicalType", "")))`
  abbrev pub kind_of : Members → Text
  kind_of body = canonical_kind (str_of shown (get_or (codes "physicalType") (str []) body))

  -- `str(body.get("logicalType", ""))`
  abbrev pub logical_of : Members → Text
  logical_of body = str_of shown (get_or (codes "logicalType") (str []) body)

  -- `_header_errors`; none is the TypeError of a status that cannot be hashed.
  unfoldable pub header_errors : Members → Option (List RuleFinding)
  header_errors doc = and_then (has_status (get (codes "status") doc)) (λ known. some (
      rule_if (not (is_text api_version (get (codes "apiVersion") doc))) bad_api_version
      ++ (rule_if (not (is_contract_id (str_of shown (get_or (codes "id") (str []) doc))))
            (bad_id (get (codes "id") doc))
          ++ (rule_if (not (is_version (str_of shown (get_or (codes "version") (str []) doc))))
                (bad_version (get (codes "version") doc))
              ++ (rule_if (not known) (bad_status (get (codes "status") doc))
                  ++ rule_if
                      (not (
                        is_true
                          (get (codes "purpose") (members_of (get (codes "description") doc)))))
                      no_purpose)))))

  abbrev pub items_kind : Value → Option Text
  items_kind (mapping items) = some (kind_of items)
  items_kind _ = none

  -- `_is_record`
  unfoldable pub is_record : Members → Bool
  is_record prop =
      kind_of prop == record_kind || items_kind (get (codes "items") prop) == some record_kind

  -- `_record_name_errors`
  unfoldable pub record_name_errors : Members → List RuleFinding
  record_name_errors prop =
      if is_record prop
      then rule_if (not (is_record_text (record_name prop))) bad_record_name
      else rule_if (not (is_null (record_name prop))) record_name_elsewhere

  -- `_options_errors`
  unfoldable pub options_errors : Members → List RuleFinding
  options_errors prop =
      let options = members_of (get (codes "logicalTypeOptions") prop) in
      option_errors (options_of (str_of shown (get (codes "logicalType") prop))) (keys_of options)
      ++ rule_if (is_false (get (codes "timezone") options)) no_timezone

  -- The kind of one value, for `_unit_errors`.
  unfoldable pub unit_kind : Members → Text
  unit_kind prop =
      if kind_of prop == array_kind
      then elim (items_kind (get (codes "items") prop)) [ none ↦ array_kind | some kind ↦ kind ]
      else kind_of prop

  unfoldable pub unit_errors : Members → Value → List RuleFinding
  unit_errors prop binding =
      rule_if
        (is_some (find (codes "unit") (members_of binding))
          && not (contains numeric_kinds (unit_kind prop)))
        unit_elsewhere

  -- `_object_errors` for `nested`.
  unfoldable pub nested_object_errors : Members → Text → List RuleFinding
  nested_object_errors body kind =
      if kind == json_kind
      then rule_if (is_true (get (codes "properties") body)) json_with_properties
      else nested_record ∷ []
