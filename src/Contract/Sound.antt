-- ===== src/Contract/Sound.antt =====
-- The fields of a contract that is loaded.
use ss_common.Prelude.{
  ◌≡◌, ◌≢◌, refl, sym, subst, Bool, true, false, Option, none, some, List, [], ◌∷◌, Text, ◌==◌,
  list_eq, nat_eq, option_eq, contains, if◌then◌else◌, Distinct, AllNew, AllNew-cons, append-eq-nil,
}
use ss_common.Result.{Result, ok}
use ss_common.Value.{Value, Items, Members, mapping}
use ss_common.Types.{kind_compatible, record_kind, array_kind}
use ss_common.Rules.{RuleFinding}
use ss_common.Rules.Words.{is_field_name, is_reserved}
use ss_common.Rules.Properties.{property_errors, properties_errors}
use ss_common.Rules.Clean.{CleanProperty, property_errors-nil}
use ss_common.Contract.{FieldHead, FieldSpec, FieldSpecs, field_spec}
use ss_common.Contract.Loading.{LoadError, field_specs}
use ss_common.Contract.Keys.{bind-ok}

abbrev pub name_of : FieldSpec → Text
name_of (field_spec h fs) = h.name

abbrev pub names_of : FieldSpecs → List Text
names_of FieldSpecs.nil = []
names_of (FieldSpecs.cons f fs) = name_of f ∷ names_of fs

abbrev pub AllFields : (FieldSpec → Type 0) → FieldSpecs → Type 0
AllFields P FieldSpecs.nil = Unit
AllFields P (FieldSpecs.cons f fs) = P f × AllFields P fs

abbrev is_record_kind : Option Text → Bool
is_record_kind none = false
is_record_kind (some kind) = kind == record_kind

-- The field is a record or an array of records.
abbrev pub carries_record : FieldHead → Bool
carries_record h =
    if h.kind == array_kind then is_record_kind h.item_kind else h.kind == record_kind

-- The field has a name that the generated code can use, and a kind that its type may carry.
pub record IsNamed (model_names : List Text) (h : FieldHead) : Type 0 where
  pub snake : is_field_name h.name ≡ true
  pub free : is_reserved model_names h.name ≡ false
  pub compatible : kind_compatible h.logical_type h.kind ≡ true

abbrev pub IsPlain : List Text → FieldSpec → Type 0
IsPlain model_names (field_spec h fs) =
    IsNamed model_names h × (carries_record h ≡ false) × (fs ≡ FieldSpecs.nil)

module _ {F : Type 0} (shown : Value → Text) (objects : Members → Text → List RuleFinding)
    (model_names : List Text) (P : FieldSpec → Type 0)
    (convert : Members → Result (LoadError F) FieldSpec) where
  abbrev pub Converts : Type 0
  Converts =
      (prop : Members) (seen : List Text) (c : CleanProperty shown objects model_names prop seen)
      → (f : FieldSpec) × (convert prop ≡ ok f) × (name_of f ≡ c.name.name) × P f

  -- Properties without findings become fields with different names.
  pub field_specs_lem :
      Converts
      → (props : Items) (seen : List Text)
      → properties_errors shown objects model_names props seen ≡ []
      → (fs : FieldSpecs) × (field_specs convert props ≡ ok fs)
        × AllNew seen (names_of fs)
        × (Distinct (names_of fs) × AllFields P fs)
        × (props ≢ Items.nil → fs ≢ FieldSpecs.nil)
  unfolding field_specs properties_errors
  field_specs_lem conv Items.nil seen h =
      (FieldSpecs.nil, refl, tt, (tt, tt), (λ n. absurd (n refl)))
  field_specs_lem conv (Items.cons (mapping prop) vs) seen h =
      let (first, rest) = append-eq-nil _ _ h in
      let (c, noted) = property_errors-nil shown objects model_names prop seen first in
      let (f, converted, named, ok_f) = conv prop seen c in
      let (fs, done, news, (distinct, ok_fs), more) =
        field_specs_lem conv vs (c.name.name ∷ seen)
          (subst (λ s. properties_errors shown objects model_names vs s ≡ []) noted rest) in
      let (once, news') = (AllNew-cons c.name.name seen (names_of fs)).0 news in
      (
        FieldSpecs.cons f fs,
        bind-ok _ _ f _ converted (bind-ok _ _ fs _ done refl),
        (subst (λ n. contains seen n ≡ false) (sym named) c.name.new, news'),
        ((subst (λ n. contains (names_of fs) n ≡ false) (sym named) once, distinct), (ok_f, ok_fs)),
        (λ n e. cc),
      )
  field_specs_lem conv (Items.cons _ vs) seen h =
      absurd (unfold property_errors in (let q : ⊥ = cc in q))
