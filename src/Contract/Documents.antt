-- ===== src/Contract/Documents.antt =====
-- Documents without findings, and the contracts they load as. That a schema object has a name is what
-- the official JSON Schema asks for.
use ss_common.Prelude.{
  ℕ, suc, ◌≡◌, ◌≢◌, refl, ap, ◌∙◌, Bool, true, false, not, Option, none, some, List, [], ◌∷◌, ◌++◌,
  Text, codes, list_eq, nat_eq, option_eq, contains, if◌then◌else◌, Distinct, append-eq-nil, all,
  ltb,
}
use ss_common.Result.{Result, ok, err}
use ss_common.Value.{
  Value, Items, Members, null, bool, int, other, find, str, list, mapping, get, members_of,
}
use ss_common.Rules.{RuleFinding, header_errors, schema_object, duplicate_record_errors}
use ss_common.Rules.Words.{is_contract_id, is_version, statuses}
use ss_common.Rules.Properties.{message_errors, properties_errors, object_errors, ss_rule_errors}
use ss_common.Contract.{FieldSpecs, ContractSpec}
use ss_common.Contract.Loading.{
  LoadError, loaded, checked, iterated, to_field_spec, to_contract, parse_contract, load_contract,
}
use ss_common.Contract.Keys.{bind-ok, has_true, key-found}
use ss_common.Contract.Sound.{field_specs_lem, names_of, AllFields}
use ss_common.Contract.Nested.{IsSound, message-Converts}
use ss_common.Contract.Bodies.{listed-nil, has_list}
use ss_common.Contract.Header.{CleanHeader, header_errors-nil, join_some, inside}

-- The official findings hold back every schema object without a name.
abbrev pub RequiresName : {F : Type 0} → (Value → List F) → Type 0
RequiresName official =
    (doc schema : Members)
    → official (mapping doc) ≡ []
    → schema_object (get (codes "schema") doc) ≡ some schema
    → (v : Value) × (find (codes "name") schema ≡ some v)

-- What a loaded contract satisfies.
pub record IsSoundContract (model_names : List Text) (c : ContractSpec) : Type 0 where
  pub id : is_contract_id c.contract_id ≡ true
  pub semantic : is_version c.version ≡ true
  pub known : contains statuses c.status ≡ true
  pub filled : c.fields ≢ FieldSpecs.nil
  pub different : Distinct (names_of c.fields)
  pub sound : AllFields (IsSound model_names) c.fields

module _ (shown : Value → Text) (model_names : List Text) where
  -- The schema object of a document without findings, and its properties.
  message_errors-nil :
      (o : Option Members)
      → message_errors shown model_names o ≡ []
      → (schema : Members) × (v : Value) × (vs : Items) × (o ≡ some schema)
        × (find (codes "properties") schema ≡ some (list (Items.cons v vs)))
        × (properties_errors shown
              (object_errors shown model_names)
              model_names
              (Items.cons v vs)
              []
            ≡ [])
  unfolding message_errors
  message_errors-nil none h = cc
  message_errors-nil (some schema) h =
      let (_, listed) = append-eq-nil _ _ h in
      let (v, vs, e, clean) =
        listed-nil shown
          (λ props.
            properties_errors shown (object_errors shown model_names) model_names props []
            ++ duplicate_record_errors props)
          _ (get (codes "properties") schema) listed in
      (
        schema,
        v,
        vs,
        refl,
        has_list _ _ e,
        (append-eq-nil
            (properties_errors shown (object_errors shown model_names) model_names (Items.cons v vs)
              [])
            (duplicate_record_errors (Items.cons v vs)) clean).0,
      )

  module _ {F : Type 0} where
    conversion :
        (n : ℕ) (doc schema : Members) (name v : Value) (vs : Items)
        → CleanHeader shown doc
        → find (codes "name") schema ≡ some name
        → find (codes "properties") schema ≡ some (list (Items.cons v vs))
        → properties_errors shown (object_errors shown model_names) model_names (Items.cons v vs) []
          ≡ []
        → (c : ContractSpec) × (◌≡◌ {A = Result (LoadError F) ContractSpec}
            (to_contract shown (suc (suc n)) doc schema)
            (ok c))
          × IsSoundContract model_names c
    unfolding to_contract
    conversion n doc schema name v vs header named listed clean =
        let (id, has_id, good_id) = header.id in
        let (version, has_version, good_version) = header.version in
        let (status, is_status, known) = header.status in
        let (purpose, has_purpose) =
          has_true (find (codes "purpose") (members_of (get (codes "description") doc)))
            header.purpose in
        let (description, has_description) =
          inside (codes "purpose") (find (codes "description") doc) purpose has_purpose in
        let (fs, done, news, (distinct, sound), more) =
          field_specs_lem shown (object_errors shown model_names) model_names (IsSound model_names)
            (to_field_spec shown (suc (suc n))) (message-Converts shown n model_names)
            (Items.cons v vs) [] clean in
        (
          _,
          bind-ok _ _ id _ (key-found _ doc _ has_id) (
              bind-ok _ _ version _ (key-found _ doc _ has_version) (
                bind-ok _ _ (str status) _ (key-found _ doc _ is_status) (
                  bind-ok _ _ name _ (key-found _ schema _ named) (
                    bind-ok _ _ description _ (key-found _ doc _ has_description.0) (
                      bind-ok _ _ purpose _
                        (key-found _ (members_of description) _ has_description.1)
                        (bind-ok _ _ (Items.cons v vs) _ (ap iterated listed)
                          (bind-ok _ _ fs _ done refl))))))),
          record {
            id = good_id;
            semantic = good_version;
            known = known;
            filled = more (λ q. cc);
            different = distinct;
            sound = sound;
          },
        )

    module _ (official_schema_errors : Value → List F) where
      checked-loads :
          (n : ℕ) (doc schema : Members) (found : List F) (rules : Option (List RuleFinding))
          (c : ContractSpec)
          → found ≡ []
          → rules ≡ some []
          → schema_object (get (codes "schema") doc) ≡ some schema
          → to_contract {F = F} shown n doc schema ≡ ok c
          → checked shown n doc found rules ≡ ok c
      checked-loads n doc schema found rules c e q s h =
          ap (λ p. checked shown n doc p rules) e
          ∙ ap (λ q. checked shown n doc [] q) q
          ∙ ap (loaded shown n doc) s
          ∙ h

      -- A document without official findings and without findings of the authoring rules loads, on fuel
      -- two, as a contract: its id, version and status are as the rules want them, and its fields, of
      -- which there is one, have different names and are each named, typed and nested as the rules want.
      -- That the official findings hold back a schema object without a name is supposed.
      pub parse_contract-IsSoundContract :
          (n : ℕ) (doc : Members)
          → RequiresName official_schema_errors
          → official_schema_errors (mapping doc) ≡ []
          → ss_rule_errors shown model_names doc ≡ some []
          → (c : ContractSpec) × (parse_contract shown model_names official_schema_errors
                (suc (suc n))
                (mapping doc)
              ≡ ok c)
            × IsSoundContract model_names c
      unfolding parse_contract ss_rule_errors
      parse_contract-IsSoundContract n doc names official rules =
          let (head, message) = join_some (header_errors shown doc) _ rules in
          let (schema, v, vs, is_schema, listed, clean) =
            message_errors-nil (schema_object (get (codes "schema") doc)) message in
          let (name, named) = names doc schema official is_schema in
          let (c, done, sound) =
            conversion n doc schema name v vs (header_errors-nil shown doc head) named listed
              clean in
          (
            c,
            checked-loads (suc (suc n)) doc schema (official_schema_errors (mapping doc))
                (ss_rule_errors shown model_names doc) c official rules is_schema done,
            sound,
          )

      checked-ok :
          (n : ℕ) (doc : Members) (found : List F) (rules : Option (List RuleFinding))
          (c : ContractSpec)
          → checked shown n doc found rules ≡ ok c
          → (found ≡ []) × (rules ≡ some [])
      checked-ok n doc found none c h = cc
      checked-ok n doc (f ∷ fs) (some rules) c h = cc
      checked-ok n doc [] (some (r ∷ rs)) c h = cc
      checked-ok n doc [] (some []) c h = (refl, refl)

      parse_contract-ok :
          (n : ℕ) (v : Value) (c : ContractSpec)
          → parse_contract shown model_names official_schema_errors n v ≡ ok c
          → (doc : Members) × (v ≡ mapping doc)
            × (official_schema_errors (mapping doc) ≡ [])
            × (ss_rule_errors shown model_names doc ≡ some [])
      unfolding parse_contract
      parse_contract-ok n (mapping doc) c h =
          let (official, rules) =
            checked-ok n doc (official_schema_errors (mapping doc))
              (ss_rule_errors shown model_names doc) c h in
          (doc, refl, official, rules)
      parse_contract-ok n null c h = cc
      parse_contract-ok n (bool b) c h = cc
      parse_contract-ok n (int i) c h = cc
      parse_contract-ok n (str s) c h = cc
      parse_contract-ok n (list vs) c h = cc
      parse_contract-ok n (other s) c h = cc

      loaded_yaml :
          (n : ℕ) (o : Option Value) (c : ContractSpec)
          → elim o [
            | none ↦ err LoadError.invalid_yaml
            | some doc ↦ parse_contract shown model_names official_schema_errors n doc
          ]
            ≡ ok c
          → (doc : Members) × (o ≡ some (mapping doc))
            × (official_schema_errors (mapping doc) ≡ [])
            × (ss_rule_errors shown model_names doc ≡ some [])
      loaded_yaml n none c h = cc
      loaded_yaml n (some v) c h =
          let (doc, e, official, rules) = parse_contract-ok n v c h in
          (doc, ap some e, official, rules)

      -- Only an ASCII text that PyYAML reads as a mapping, for which neither the official JSON Schema nor
      -- the authoring rules have findings, loads as a contract, whatever the fuel.
      pub load_contract-ok :
          (safe_load : Text → Option Value) (n : ℕ) (text : Text) (c : ContractSpec)
          → load_contract shown model_names official_schema_errors safe_load n text ≡ ok c
          → (all (λ c. ltb c 128) text ≡ true)
            × ((doc : Members) × (safe_load text ≡ some (mapping doc))
                × (official_schema_errors (mapping doc) ≡ [])
                × (ss_rule_errors shown model_names doc ≡ some []))
      unfolding load_contract
      load_contract-ok safe_load n text c h =
          let (ascii, yaml) = two_tests (all (λ c. ltb c 128) text) _ _ c h in
          (ascii, loaded_yaml n (safe_load text) c yaml)
        where
          two_tests :
              (a : Bool) (e : LoadError F) (r : Result (LoadError F) ContractSpec)
              (c : ContractSpec)
              → (if not a then err e else r) ≡ ok c
              → (a ≡ true) × (r ≡ ok c)
          two_tests true e r c h = (refl, h)
          two_tests false e r c h = cc
