-- ===== src/Contract/Tests.antt =====
-- A small contract document, with a plain field and an array of records.
use ss_common.Prelude.{
  ℕ, ◌≡◌, refl, sym, ap, ◌∙◌, true, none, sorted_set, all, ltb, Option, some, List, [], ◌∷◌, Text,
  codes, ◌==◌, list_eq, nat_eq, option_eq, split, lookup,
}
use ss_common.Result.{ok}
use ss_common.Value.{
  Value, Items, Members, bool, str, list, mapping, member, end, find, get, keys_of,
}
use ss_common.Regex.{run}
use ss_common.Binding.{binding_errors}
use ss_common.Rules.{
  schema_object, header_errors, find_in, name_errors, record_names, counted_twice,
  duplicate_record_errors, is_record, record_name_errors, options_errors, unit_kind, unit_errors,
  nested_object_errors,
}
use ss_common.Rules.Words.{
  is_contract_id, is_version, is_field_name, is_record_name, options_of, is_reserved,
}
use ss_common.Rules.Properties.{
  items_errors, type_errors, body_errors, property_errors, properties_errors, object_errors,
  message_errors, ss_rule_errors,
}
use ss_common.Types.{canonical_kind, kind_compatible}
use ss_common.Contract.{ContractSpec}
use ss_common.Contract.Documents.{
  RequiresName, IsSoundContract, parse_contract-IsSoundContract, load_contract-ok,
}
use ss_common.Contract.Loading.{parse_contract, load_contract}

abbrev no_text : Value → Text
no_text v = []

abbrev id_property : Members
id_property = member (codes "name") (str (codes "sensor_id")) (
    member (codes "description") (str (codes "Which sensor")) (
      member (codes "required") (bool true) (
        member (codes "logicalType") (str (codes "string"))
          (member (codes "physicalType") (str (codes "string")) end))))

abbrev point_customs : Value
point_customs = list (
    Items.cons
      (mapping (
        member (codes "property") (str (codes "fieldGeneration")) (
          member (codes "value") (mapping (member (codes "recordName") (str (codes "Point")) end))
            end)))
      Items.nil)

abbrev path_property : Members
path_property = member (codes "name") (str (codes "path")) (
    member (codes "description") (str (codes "Where it went")) (
      member (codes "required") (bool true) (
        member (codes "logicalType") (str (codes "array")) (
          member (codes "physicalType") (str (codes "array")) (
            member (codes "customProperties") point_customs (
              member (codes "items")
                (mapping (
                  member (codes "logicalType") (str (codes "object")) (
                    member (codes "physicalType") (str (codes "record")) (
                      member (codes "properties")
                        (list (Items.cons (mapping id_property) Items.nil)) end))))
                end))))))

abbrev track_schema : Members
track_schema = member (codes "name") (str (codes "Track")) (
    member (codes "properties")
      (list (Items.cons (mapping id_property) (Items.cons (mapping path_property) Items.nil))) end)

abbrev track_document : Members
track_document = member (codes "apiVersion") (str (codes "v3.1.0")) (
    member (codes "id") (str (codes "track")) (
      member (codes "version") (str (codes "1.0.0")) (
        member (codes "status") (str (codes "active")) (
          member (codes "description")
            (mapping (member (codes "purpose") (str (codes "Tracks of sensors")) end))
            (member (codes "schema") (list (Items.cons (mapping track_schema) Items.nil)) end)))))

-- The official findings of a validator that knows only that a schema object has a name.
abbrev missing_name : Option Value → List ℕ
missing_name none = 1 ∷ []
missing_name (some v) = []

found : (o : Option Value) → missing_name o ≡ [] → (v : Value) × (o ≡ some v)
found none h = cc
found (some v) h = (v, refl)

abbrev name_findings : Option Members → List ℕ
name_findings none = []
name_findings (some schema) = missing_name (find (codes "name") schema)

abbrev official : Value → List ℕ
official (mapping doc) = name_findings (schema_object (get (codes "schema") doc))
official v = 2 ∷ []

named_or_not :
    (schema : Members)
    → name_findings (some schema) ≡ []
    → (v : Value) × (find (codes "name") schema ≡ some v)
named_or_not schema h = found (find (codes "name") schema) h

official-RequiresName : RequiresName official
official-RequiresName doc schema h e = named_or_not schema (ap name_findings (sym e) ∙ h)

track_rules : ss_rule_errors no_text [] track_document ≡ some []
unfolding ss_rule_errors header_errors find_in name_errors record_names counted_twice
    duplicate_record_errors is_record record_name_errors options_errors unit_kind unit_errors
    nested_object_errors is_contract_id is_version is_field_name is_record_name options_of
    is_reserved items_errors type_errors body_errors property_errors properties_errors object_errors
    message_errors canonical_kind kind_compatible find lookup split ◌==◌ list_eq nat_eq option_eq
    run binding_errors keys_of sorted_set
track_rules = refl

track_official : official (mapping track_document) ≡ []
unfolding find ◌==◌ list_eq nat_eq
track_official = refl

parse_contract-IsSoundContract_example :
    (c : ContractSpec) × (parse_contract no_text [] official 2 (mapping track_document) ≡ ok c)
    × IsSoundContract [] c
parse_contract-IsSoundContract_example =
    parse_contract-IsSoundContract no_text [] official 0 track_document official-RequiresName
      track_official track_rules

-- The document again, on more fuel.
track_loaded :
    (c : ContractSpec) × (parse_contract no_text [] official 3 (mapping track_document) ≡ ok c)
    × IsSoundContract [] c
track_loaded =
    parse_contract-IsSoundContract no_text [] official 1 track_document official-RequiresName
      track_official track_rules

-- A reader that knows one text.
abbrev one_text : Text → Option Value
one_text text = some (mapping track_document)

track_read : load_contract no_text [] official one_text 3 (codes "id: track") ≡ ok track_loaded.0
unfolding load_contract
track_read = track_loaded.1

load_contract-ok_example :
    (all (λ c. ltb c 128) (codes "id: track") ≡ true)
    × ((doc : Members) × (one_text (codes "id: track") ≡ some (mapping doc))
        × (official (mapping doc) ≡ [])
        × (ss_rule_errors no_text [] doc ≡ some []))
load_contract-ok_example =
    load_contract-ok no_text [] official one_text 3 (codes "id: track") track_loaded.0 track_read
