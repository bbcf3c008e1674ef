-- ===== src/Contract/Nested.antt =====
-- Properties of a message without findings, as fields: plain ones, and records of plain ones.
use ss_common.Prelude.{
  ℕ, suc, ◌≡◌, ◌≢◌, ◌⊎◌, inl, inr, refl, ap, ◌∙◌, true, false, Option, none, some, List, [], Text,
  codes, ◌==◌, list_eq, nat_eq, option_eq, Distinct, arith, Bool-cases,
}
use ss_common.Result.{Result, ok}
use ss_common.Value.{Value, Items, Members, find, str_of, str, list, get}
use ss_common.Types.{kind_compatible, json_kind, record_kind}
use ss_common.Rules.{
  RuleFinding, kind_of, items_kind, logical_of, nested_object_errors, record_name,
  record_name_errors, is_record,
}
use ss_common.Rules.Words.{is_record_name}
use ss_common.Rules.Properties.{inner_errors, properties_errors, object_errors}
use ss_common.Rules.Clean.{CleanProperty, type_errors-nil, Carrier, of_items, of_itself}
use ss_common.Contract.{FieldHead, FieldSpec, FieldSpecs, field_spec}
use ss_common.Contract.Loading.{
  LoadError, described, iterated, field_specs, record_body, record_parts, to_field_spec,
  RecordParts, field_head,
}
use ss_common.Contract.Keys.{bind-ok, field_head_lem, has_true, key-found}
use ss_common.Contract.Sound.{
  IsNamed, IsPlain, carries_record, Converts, field_specs_lem, name_of, names_of, AllFields,
}
use ss_common.Contract.Records.{
  of_array, record_body-Carrier, carries_record-Carrier, named, no_parts, single, nested-Converts,
}
use ss_common.Contract.Bodies.{
  listed-nil, has_list, described-ok, is_record_text-true, json-or_record, second, or_left,
  or_right, some-same,
}

-- A record has a name of its own and plain fields, with different names.
pub record IsRecord (model_names : List Text) (h : FieldHead) (fs : FieldSpecs) : Type 0 where
  pub carries : carries_record h ≡ true
  pub record_named : (n : Text) × (h.record_name ≡ some n) × (is_record_name n ≡ true)
  pub filled : fs ≢ FieldSpecs.nil
  pub different : Distinct (names_of fs)
  pub plain : AllFields (IsPlain model_names) fs

abbrev pub IsSound : List Text → FieldSpec → Type 0
IsSound model_names (field_spec h fs) =
    IsNamed model_names h
    × (((carries_record h ≡ false) × (fs ≡ FieldSpecs.nil)) ⊎ IsRecord model_names h fs)

module _ (shown : Value → Text) where
  is_record-Carrier :
      (objects : Members → Text → List RuleFinding) (model_names : List Text) {prop body : Members}
      → Carrier shown objects model_names prop body
      → (kind_of shown body == record_kind) ≡ true
      → is_record shown prop ≡ true
  unfolding is_record
  is_record-Carrier objects models {prop} (of_items items a e k) r =
      or_right (kind_of shown prop == record_kind)
        (items_kind shown (get (codes "items") prop) == some record_kind)
        (ap (λ v. items_kind shown v == some record_kind) e ∙ some-same _ _ r)
  is_record-Carrier objects models (of_itself a) r = or_left _ _ r

  record_name-good :
      (prop : Members)
      → record_name_errors shown prop ≡ []
      → is_record shown prop ≡ true
      → (n : Text) × (record_name prop ≡ str n) × (is_record_name n ≡ true)
  unfolding record_name_errors
  record_name-good prop h r = is_record_text-true (record_name prop) (ground arith)

  record_listed :
      (model_names : List Text) (body : Members) (kind : Text)
      → inner_errors shown (object_errors shown model_names) body kind ≡ []
      → (kind == record_kind) ≡ true
      → (first : Value) × (rest : Items) × (find (codes "properties") body
          ≡ some (list (Items.cons first rest)))
        × (properties_errors shown
              (nested_object_errors shown)
              model_names
              (Items.cons first rest)
              []
            ≡ [])
  unfolding object_errors
  record_listed models body kind h r =
      let (v, vs, e, c) =
        listed-nil shown
          (λ props. properties_errors shown (nested_object_errors shown) models props []) _
          (get (codes "properties") body)
          (second (kind == json_kind) (kind == record_kind) _ _ r (json-or_record kind r) h) in
      (v, vs, has_list _ _ e, c)

  module _ {F : Type 0} where
    -- The parts of a record.
    parts_of :
        (prop body : Members) (vs : Items) (d : Value)
        → record_body shown prop ≡ body
        → (kind_of shown body == record_kind) ≡ true
        → find (codes "properties") body ≡ some (list vs)
        → find (codes "description") prop ≡ some d
        → (parts : RecordParts) × (◌≡◌ {A = Result (LoadError F) (Option RecordParts)}
            (record_parts shown prop)
            (ok (some parts)))
          × (parts.name ≡ str_of shown (record_name prop))
          × (parts.properties ≡ vs)
    unfolding record_parts
    parts_of prop body vs d e r p c =
        let (v, is_v) =
          described-ok {F = F} (get (codes "description") (record_body shown prop)) d _
            (key-found _ prop d c) in
        (
          _,
          of_array (kind_of shown (record_body shown prop) == record_kind) _ _
                (ap (λ m. kind_of shown m == record_kind) e ∙ r)
              ∙ bind-ok _ _ v _ is_v (
                  bind-ok _ _ vs _
                    (ap (λ m. iterated (find (codes "properties") m)) e ∙ ap iterated p) refl),
          refl,
          refl,
        )

    -- The field of a property that is a record.
    composite :
        (n : ℕ) (prop : Members) (parts : RecordParts) (h : FieldHead) (fs : FieldSpecs)
        → ◌≡◌ {A = Result (LoadError F) (Option RecordParts)}
            (record_parts shown prop)
            (ok (some parts))
        → ◌≡◌ {A = Result (LoadError F) FieldHead} (field_head shown prop (some parts)) (ok h)
        → ◌≡◌ {A = Result (LoadError F) FieldSpecs}
            (field_specs (to_field_spec shown n) parts.properties)
            (ok fs)
        → ◌≡◌ {A = Result (LoadError F) FieldSpec}
            (to_field_spec shown (suc n) prop)
            (ok (field_spec h fs))
    unfolding to_field_spec
    composite n prop parts h fs p e k =
        bind-ok _ _ (some parts) _ p (bind-ok _ _ h _ e (bind-ok _ _ fs _ k refl))

    leaf :
        (n : ℕ) (models : List Text) (prop : Members) (seen : List Text)
        (c : CleanProperty shown (object_errors shown models) models prop seen) (body : Members)
        → Carrier shown (object_errors shown models) models prop body
        → (kind_of shown body == record_kind) ≡ false
        → kind_compatible (logical_of shown prop) (kind_of shown prop) ≡ true
        → (f : FieldSpec) × (◌≡◌ {A = Result (LoadError F) FieldSpec}
            (to_field_spec shown (suc n) prop)
            (ok f))
          × (name_of f ≡ c.name.name)
          × IsSound models f
    leaf n models prop seen c body carrier r compatible =
        let (h, e, head) =
          field_head_lem shown prop none (object_errors shown models) models seen c in
        (
          field_spec h FieldSpecs.nil,
          single shown n prop h
              (no_parts shown prop body
                (record_body-Carrier shown (object_errors shown models) models carrier) r)
              e,
          head.name_is,
          (
            named shown (object_errors shown models) models c h head compatible,
            inl (
              carries_record-Carrier shown (object_errors shown models) models head carrier ∙ r,
              refl,
            ),
          ),
        )

    branch :
        (n : ℕ) (models : List Text) (prop : Members) (seen : List Text)
        (c : CleanProperty shown (object_errors shown models) models prop seen) (body : Members)
        → Carrier shown (object_errors shown models) models prop body
        → (kind_of shown body == record_kind) ≡ true
        → inner_errors shown (object_errors shown models) body (kind_of shown body) ≡ []
        → kind_compatible (logical_of shown prop) (kind_of shown prop) ≡ true
        → (f : FieldSpec) × (◌≡◌ {A = Result (LoadError F) FieldSpec}
            (to_field_spec shown (suc (suc n)) prop)
            (ok f))
          × (name_of f ≡ c.name.name)
          × IsSound models f
    branch n models prop seen c body carrier r inner compatible =
        let (v, vs, p, clean) = record_listed models body (kind_of shown body) inner r in
        let (d, described) = has_true (find (codes "description") prop) c.described in
        let (parts, is_parts, parts_name, parts_props) =
          parts_of prop body (Items.cons v vs) d
            (record_body-Carrier shown (object_errors shown models) models carrier) r p described in
        let (h, e, head) =
          field_head_lem shown prop (some parts) (object_errors shown models) models seen c in
        let (fs, done, news, (distinct, plain), more) =
          field_specs_lem shown (nested_object_errors shown) models (IsPlain models)
            (to_field_spec shown (suc n)) (nested-Converts shown n models) (Items.cons v vs) []
            clean in
        let (name, is_name, good) =
          record_name-good prop c.record_named
            (is_record-Carrier (object_errors shown models) models carrier r) in
        (
          field_spec h fs,
          composite (suc n) prop parts h fs is_parts e
              (ap (λ props. field_specs (to_field_spec shown (suc n)) props) parts_props ∙ done),
          head.name_is,
          (
            named shown (object_errors shown models) models c h head compatible,
            inr (record {
              carries =
                  carries_record-Carrier shown (object_errors shown models) models head carrier ∙ r;
              record_named = (
                name,
                head.record_name_is ∙ ap some (parts_name ∙ ap (str_of shown) is_name),
                good,
              );
              filled = more (λ q. cc);
              different = distinct;
              plain = plain;
            }),
          ),
        )

    pub message-Converts :
        (n : ℕ) (models : List Text)
        → Converts {F = F} shown
            (object_errors shown models)
            models
            (IsSound models)
            (to_field_spec shown (suc (suc n)))
    message-Converts n models prop seen c =
        let (body, carrier, inner, compatible) =
          type_errors-nil shown (object_errors shown models) models prop c.typed in
        elim (Bool-cases (kind_of shown body == record_kind)) [
          | inl r ↦ branch n models prop seen c body carrier r inner compatible
          | inr r ↦ leaf (suc n) models prop seen c body carrier r compatible
        ]
