-- ===== src/Contract/Records.antt =====
-- Properties without findings, as fields: plain ones, and records of plain ones.
use ss_common.Prelude.{
  ℕ, suc, ◌≡◌, refl, ap, ◌∙◌, Bool, true, false, ◌&&◌, Option, none, List, [], Text, ◌==◌, list_eq,
  nat_eq, option_eq, ==_iff, if◌then◌else◌, arith,
}
use ss_common.Result.{Result, ok}
use ss_common.Value.{Value, Members, mapping, is_mapping, members_of}
use ss_common.Types.{kind_compatible, json_kind, record_kind}
use ss_common.Rules.{RuleFinding, kind_of, logical_of, nested_object_errors}
use ss_common.Rules.Words.{is_field_name, is_reserved}
use ss_common.Rules.Properties.{inner_errors}
use ss_common.Rules.Clean.{CleanProperty, type_errors-nil, Carrier, of_items, of_itself}
use ss_common.Contract.{FieldHead, FieldSpec, FieldSpecs, field_spec}
use ss_common.Contract.Loading.{
  LoadError, field_specs, record_body, record_parts, to_field_spec, RecordParts, field_head,
}
use ss_common.Contract.Keys.{bind-ok, HeadOf, field_head_lem}
use ss_common.Contract.Sound.{IsNamed, IsPlain, carries_record, Converts}

json-record : (json_kind == record_kind) ≡ false
unfolding ◌==◌ list_eq nat_eq
json-record = refl

taken :
    (b : Bool) (v : Value) (prop items : Members)
    → b ≡ true
    → v ≡ mapping items
    → (if b && is_mapping v then members_of v else prop) ≡ items
taken true v prop items a e = rw e refl
taken false v prop items a e = cc

left_out :
    (b : Bool) (v : Value) (prop : Members)
    → b ≡ false
    → (if b && is_mapping v then members_of v else prop) ≡ prop
left_out true v prop a = cc
left_out false v prop a = refl

pub of_array : {A : Type 0} (a : Bool) (r b : A) → a ≡ true → (if a then r else b) ≡ r
of_array true r b e = refl
of_array false r b e = cc

pub of_single : {A : Type 0} (a : Bool) (r b : A) → a ≡ false → (if a then r else b) ≡ b
of_single true r b e = cc
of_single false r b e = refl

module _ (shown : Value → Text) where
  pub record_body-Carrier :
      (objects : Members → Text → List RuleFinding) (model_names : List Text) {prop body : Members}
      → Carrier shown objects model_names prop body
      → record_body shown prop ≡ body
  record_body-Carrier objects models (of_items items a e k) = taken _ _ _ items a e
  record_body-Carrier objects models (of_itself a) = left_out _ _ _ a

  pub carries_record-Carrier :
      (objects : Members → Text → List RuleFinding) (model_names : List Text) {prop body : Members}
      {name : Text} {parts : Option RecordParts} {h : FieldHead}
      → HeadOf shown prop name parts h
      → Carrier shown objects model_names prop body
      → carries_record h ≡ (kind_of shown body == record_kind)
  carries_record-Carrier objects models head (of_items items a e k) =
      rw head.kind_is (rw head.item_kind_is (of_array _ _ _ a ∙ rw e refl))
  carries_record-Carrier objects models head (of_itself a) = rw head.kind_is (of_single _ _ _ a)

  nested_no_record :
      (body : Members) (kind : Text)
      → inner_errors shown (nested_object_errors shown) body kind ≡ []
      → (kind == record_kind) ≡ false
  unfolding nested_object_errors
  nested_no_record body kind h =
      ground (arith, ==_iff kind json_kind, ==_iff kind record_kind, json-record)

  -- A property without findings has the name and the type that its field needs.
  pub named :
      (objects : Members → Text → List RuleFinding) (model_names : List Text) {prop : Members}
      {seen : List Text} {parts : Option RecordParts}
      (c : CleanProperty shown objects model_names prop seen) (h : FieldHead)
      → HeadOf shown prop c.name.name parts h
      → kind_compatible (logical_of shown prop) (kind_of shown prop) ≡ true
      → IsNamed model_names h
  named objects models c h head k = record {
    snake = ap is_field_name head.name_is ∙ c.name.snake;
    free = ap (is_reserved models) head.name_is ∙ c.name.free;
    compatible = rw head.logical_is (rw head.kind_is k);
  }

  module _ {F : Type 0} where
    pub no_parts :
        (prop body : Members)
        → record_body shown prop ≡ body
        → (kind_of shown body == record_kind) ≡ false
        → ◌≡◌ {A = Result (LoadError F) (Option RecordParts)} (record_parts shown prop) (ok none)
    unfolding record_parts
    no_parts prop body e k =
        of_single (kind_of shown (record_body shown prop) == record_kind) _ _
          (ap (λ m. kind_of shown m == record_kind) e ∙ k)

    -- The field of a property that is no record.
    pub single :
        (n : ℕ) (prop : Members) (h : FieldHead)
        → ◌≡◌ {A = Result (LoadError F) (Option RecordParts)} (record_parts shown prop) (ok none)
        → ◌≡◌ {A = Result (LoadError F) FieldHead} (field_head shown prop none) (ok h)
        → ◌≡◌ {A = Result (LoadError F) FieldSpec}
            (to_field_spec shown (suc n) prop)
            (ok (field_spec h FieldSpecs.nil))
    unfolding to_field_spec field_specs
    single n prop h p e = bind-ok _ _ none _ p (bind-ok _ _ h _ e refl)

    pub nested-Converts :
        (n : ℕ) (models : List Text)
        → Converts {F = F} shown
            (nested_object_errors shown)
            models
            (IsPlain models)
            (to_field_spec shown (suc n))
    nested-Converts n models prop seen c =
        let (body, carrier, inner, compatible) =
          type_errors-nil shown (nested_object_errors shown) models prop c.typed in
        let no_record = nested_no_record body (kind_of shown body) inner in
        let (h, e, head) =
          field_head_lem shown prop none (nested_object_errors shown) models seen c in
        (
          field_spec h FieldSpecs.nil,
          single n prop h
              (no_parts prop body (record_body-Carrier (nested_object_errors shown) models carrier)
                no_record)
              e,
          head.name_is,
          (
            named (nested_object_errors shown) models c h head compatible,
            carries_record-Carrier (nested_object_errors shown) models head carrier ∙ no_record,
            refl,
          ),
        )
