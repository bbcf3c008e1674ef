-- ===== src/Contract/Loading.antt =====
-- src/ss_contracts/tooling/odcs.py: documents to contracts. The official JSON Schema's findings are a
-- parameter, as are PyYAML and Python's `str` for values that are no texts. `_field_spec` takes fuel, one
-- unit for each level of records. Where several keys are absent, the one that is reported need not be
-- the one that Python looks up first.
use ss_common.Prelude.{
  all, ltb, not, ℕ, zero, suc, true, false, ◌&&◌, Option, none, some, List, [], ◌∷◌, ◌++◌, Text,
  codes, ◌==◌, list_eq, nat_eq, if◌then◌else◌, is_empty, is_space, join, Dict,
}
use ss_common.Result.{Result, ok, err, ◌>>=◌}
use ss_common.Value.{
  Value, Items, Members, str, list, mapping, end, member, find, get, is_true, str_of, members_of,
  is_mapping,
}
use ss_common.Types.{canonical_kind, record_kind, array_kind}
use ss_common.Binding.{normalize_binding}
use ss_common.Rules.{
  RuleFinding, find_custom_property, schema_object, record_name, kind_of, items_kind,
}
use ss_common.Rules.Properties.{ss_rule_errors}
use ss_common.Contract.{FieldHead, FieldSpec, FieldSpecs, field_spec, ContractSpec}

-- ContractError with its findings, and what else may be raised.
pub data LoadError (F : Type 0) : Type 0 where
  not_ascii invalid_yaml not_a_mapping : LoadError F
  findings : List F → List RuleFinding → LoadError F
  no_key : Text → LoadError F
  type_error : LoadError F
  no_schema_object : LoadError F
  no_fuel : LoadError F

-- `" ".join(text.split())`: the words, with the one being read.
unfoldable pub words : Text → Text → List Text
words word [] = if is_empty word then [] else word ∷ []
words word (c ∷ s) = elim (is_space c) [
  | true ↦ (if is_empty word then words [] s else word ∷ words [] s)
  | false ↦ words (word ++ c ∷ []) s
]

unfoldable pub one_line : Text → Text
one_line s = join b' ' (words [] s)

-- The parts of a record: its name, its description and the list of its properties.
pub record RecordParts : Type 0 where
  pub name : Text
  pub description : Text
  pub properties : Items

unfoldable pub mappings : Members → Dict Text Members
mappings end = []
mappings (member fmt (mapping hints) rest) = (fmt, hints) ∷ mappings rest
mappings (member fmt _ rest) = mappings rest

-- `_generation`
unfoldable pub generation : Value → Text → Dict Text Members
generation customs name = mappings (members_of (find_custom_property customs name))

-- The items of an array, or the property itself.
abbrev pub record_body : (Value → Text) → Members → Members
record_body shown prop =
    if kind_of shown prop == array_kind && is_mapping (get (codes "items") prop)
    then members_of (get (codes "items") prop)
    else prop

abbrev pub name_of : Option RecordParts → Option Text
name_of none = none
name_of (some parts) = some parts.name

abbrev pub description_of : Option RecordParts → Text
description_of none = []
description_of (some parts) = parts.description

abbrev pub properties_of : Option RecordParts → Items
properties_of none = Items.nil
properties_of (some parts) = parts.properties

module _ {F : Type 0} where
  abbrev pub needed : Text → Option Value → Result (LoadError F) Value
  needed k none = err (no_key k)
  needed k (some v) = ok v

  -- `m[key]`
  abbrev pub key : Text → Members → Result (LoadError F) Value
  key k m = needed k (find k m)

  -- What `_iter_properties` iterates over; only mappings are taken from it.
  abbrev pub iterated : Option Value → Result (LoadError F) Items
  iterated none = ok Items.nil
  iterated (some (list vs)) = ok vs
  iterated (some (str s)) = ok Items.nil
  iterated (some (mapping m)) = ok Items.nil
  iterated (some _) = err type_error

  -- `body.get("description") or prop["description"]`
  abbrev pub described : Value → Result (LoadError F) Value → Result (LoadError F) Value
  described v other_one = if is_true v then ok v else other_one

  unfoldable pub field_specs :
      (Members → Result (LoadError F) FieldSpec) → Items → Result (LoadError F) FieldSpecs
  field_specs convert Items.nil = ok FieldSpecs.nil
  field_specs convert (Items.cons (mapping prop) props) = do
    f ← convert prop
    fs ← field_specs convert props
    ok (FieldSpecs.cons f fs)
  field_specs convert (Items.cons _ props) = field_specs convert props

  module _ (shown : Value → Text) where
    -- `_record_parts`; none where the body is no record.
    unfoldable pub record_parts : Members → Result (LoadError F) (Option RecordParts)
    record_parts prop =
        if kind_of shown (record_body shown prop) == record_kind
        then (do
          v ←
              described (get (codes "description") (record_body shown prop))
                (key (codes "description") prop)
          props ← iterated (find (codes "properties") (record_body shown prop))
          ok (
              some (record {
                name = str_of shown (record_name prop);
                description = one_line (str_of shown v);
                properties = props;
              })))
        else ok none

    -- `_field_spec` without the fields of a record.
    unfoldable pub field_head : Members → Option RecordParts → Result (LoadError F) FieldHead
    field_head prop parts = do
      name ← key (codes "name") prop
      logical ← key (codes "logicalType") prop
      physical ← key (codes "physicalType") prop
      required ← key (codes "required") prop
      description ← key (codes "description") prop
      ok (record {
        name = str_of shown name;
        logical_type = str_of shown logical;
        kind = canonical_kind (str_of shown physical);
        required = is_true required;
        description = one_line (str_of shown description);
        options = members_of (get (codes "logicalTypeOptions") prop);
        item_kind = items_kind shown (get (codes "items") prop);
        binding =
            normalize_binding shown
              (find_custom_property (get (codes "customProperties") prop) (codes "ssBinding"));
        generation = generation (get (codes "customProperties") prop) (codes "fieldGeneration");
        record_name = name_of parts;
        record_description = description_of parts;
      })

    unfoldable pub to_field_spec : ℕ → Members → Result (LoadError F) FieldSpec
    to_field_spec zero prop = err no_fuel
    to_field_spec (suc n) prop = do
      parts ← record_parts prop
      head ← field_head prop parts
      fs ← field_specs (to_field_spec n) (properties_of parts)
      ok (field_spec head fs)

    -- The conversion of a document without findings.
    unfoldable pub to_contract : ℕ → Members → Members → Result (LoadError F) ContractSpec
    to_contract n doc schema = do
      id ← key (codes "id") doc
      version ← key (codes "version") doc
      status ← key (codes "status") doc
      name ← key (codes "name") schema
      description ← key (codes "description") doc
      purpose ← key (codes "purpose") (members_of description)
      props ← iterated (find (codes "properties") schema)
      fs ← field_specs (to_field_spec n) props
      ok (record {
        contract_id = str_of shown id;
        version = str_of shown version;
        status = str_of shown status;
        name = str_of shown name;
        purpose = one_line (str_of shown purpose);
        fields = fs;
        binding =
            normalize_binding shown
              (find_custom_property (get (codes "customProperties") schema) (codes "ssBinding"));
        generation = generation (get (codes "customProperties") schema) (codes "schemaGeneration");
      })

    abbrev pub loaded : ℕ → Members → Option Members → Result (LoadError F) ContractSpec
    loaded n doc none = err no_schema_object
    loaded n doc (some schema) = to_contract n doc schema

    abbrev pub checked :
        ℕ → Members → List F → Option (List RuleFinding) → Result (LoadError F) ContractSpec
    checked n doc official none = err type_error
    checked n doc (f ∷ fs) (some rules) = err (findings (f ∷ fs) rules)
    checked n doc [] (some (r ∷ rs)) = err (findings [] (r ∷ rs))
    checked n doc [] (some []) = loaded n doc (schema_object (get (codes "schema") doc))

    module _ (model_names : List Text) (official_schema_errors : Value → List F) where
      -- `parse_contract`
      unfoldable pub parse_contract : ℕ → Value → Result (LoadError F) ContractSpec
      parse_contract n (mapping doc) =
          checked n doc (official_schema_errors (mapping doc))
            (ss_rule_errors shown model_names doc)
      parse_contract n _ = err not_a_mapping

      -- `load_contract`, of the text of a file; none is what `safe_load` raises.
      unfoldable pub load_contract :
          (Text → Option Value) → ℕ → Text → Result (LoadError F) ContractSpec
      load_contract safe_load n text =
          if not (all (λ c. ltb c 128) text)
          then err not_ascii
          else elim (safe_load text) [ none ↦ err invalid_yaml | some doc ↦ parse_contract n doc ]
