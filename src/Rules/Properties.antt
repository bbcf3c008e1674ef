-- ===== src/Rules/Properties.antt =====
-- src/ss_contracts/tooling/rules.py: the rules on properties, and on a document.
use ss_common.Prelude.{
  not, ◌||◌, Option, none, some, List, [], ◌∷◌, ◌++◌, map, Text, codes, ◌==◌, list_eq, nat_eq,
  contains, if◌then◌else◌, is_empty, and_then,
}
use ss_common.Value.{Value, Items, Members, list, mapping, get, is_true}
use ss_common.Types.{kind_compatible, kinds_of, item_kinds, json_kind, record_kind, array_kind}
use ss_common.Binding.{binding_errors, field_keys, message_keys}
use ss_common.Rules.{
  RuleFinding, of_schema, json_with_properties, empty_record, no_items, bad_item_kind,
  bad_item_type, unknown_type, bad_kind, no_description, no_required, not_a_property, of_binding,
  in_property, not_one_object, no_properties, rule_if, find_custom_property, schema_object,
  name_errors, is_bool, kind_of, logical_of, header_errors, record_name_errors, options_errors,
  unit_errors, nested_object_errors, duplicate_record_errors,
}

module _ (shown : Value → Text) where
  module _ (object_errors : Members → Text → List RuleFinding) where
    abbrev pub inner_errors : Members → Text → List RuleFinding
    inner_errors body kind =
        if kind == json_kind || kind == record_kind then object_errors body kind else []

    -- `_items_errors`
    unfoldable pub items_errors : Value → List RuleFinding
    items_errors (mapping items) =
        if not (contains item_kinds (kind_of shown items))
        then bad_item_kind (get (codes "physicalType") items) ∷ []
        else if not (kind_compatible (logical_of shown items) (kind_of shown items))
        then bad_item_type (get (codes "logicalType") items) ∷ []
        else inner_errors items (kind_of shown items)
    items_errors _ = no_items ∷ []

    -- `_type_errors`
    unfoldable pub type_errors : Members → List RuleFinding
    type_errors prop =
        if is_empty (kinds_of (logical_of shown prop))
        then unknown_type (logical_of shown prop) ∷ []
        else if not (kind_compatible (logical_of shown prop) (kind_of shown prop))
        then bad_kind (get (codes "physicalType") prop) (logical_of shown prop) ∷ []
        else if kind_of shown prop == array_kind
        then items_errors (get (codes "items") prop)
        else inner_errors prop (kind_of shown prop)

    -- What `_property_errors` finds but for the name.
    unfoldable pub body_errors : Members → List RuleFinding
    body_errors prop =
        let binding =
          find_custom_property (get (codes "customProperties") prop) (codes "ssBinding") in
        rule_if (not (is_true (get (codes "description") prop))) no_description
        ++ (rule_if (not (is_bool (get (codes "required") prop))) no_required
            ++ (type_errors prop
                ++ (record_name_errors shown prop
                    ++ (options_errors shown prop
                        ++ (map of_binding (binding_errors binding field_keys)
                            ++ unit_errors shown prop binding)))))

    module _ (model_names : List Text) where
      -- `_property_errors`, with the names seen afterwards.
      unfoldable pub property_errors : Value → List Text → List RuleFinding × List Text
      property_errors (mapping prop) seen =
          let name = get (codes "name") prop in
          let (errors, seen') = name_errors model_names name seen in
          (map (in_property name) (errors ++ body_errors prop), seen')
      property_errors _ seen = (not_a_property ∷ [], seen)

      -- The loop over the properties.
      unfoldable pub properties_errors : Items → List Text → List RuleFinding
      properties_errors Items.nil seen = []
      properties_errors (Items.cons prop props) seen =
          (property_errors prop seen).0 ++ properties_errors props (property_errors prop seen).1

  -- The properties of a record or a message, where there are any.
  abbrev pub listed_errors : (Items → List RuleFinding) → RuleFinding → Value → List RuleFinding
  listed_errors errors missing (list (Items.cons v vs)) = errors (Items.cons v vs)
  listed_errors errors missing _ = missing ∷ []

  module _ (model_names : List Text) where
    -- `_object_errors` for what is not nested.
    unfoldable pub object_errors : Members → Text → List RuleFinding
    object_errors body kind =
        if kind == json_kind
        then rule_if (is_true (get (codes "properties") body)) json_with_properties
        else listed_errors
            (λ props. properties_errors (nested_object_errors shown) model_names props [])
            empty_record (get (codes "properties") body)

    -- `ss_rule_errors`, after the header, for what the schema object is.
    unfoldable pub message_errors : Option Members → List RuleFinding
    message_errors none = not_one_object ∷ []
    message_errors (some schema) =
        map of_schema (
          binding_errors
            (find_custom_property (get (codes "customProperties") schema) (codes "ssBinding"))
            message_keys)
        ++ listed_errors
            (λ props.
              properties_errors object_errors model_names props [] ++ duplicate_record_errors props)
            no_properties (get (codes "properties") schema)

    unfoldable pub ss_rule_errors : Members → Option (List RuleFinding)
    ss_rule_errors doc =
        and_then (header_errors shown doc)
          (λ errors. some (errors ++ message_errors (schema_object (get (codes "schema") doc))))
