-- ===== src/Contract/Keys.antt =====
-- The keys that a property without findings has, and the head of the field that it becomes.
use ss_common.Prelude.{
  ◌≡◌, refl, sym, ap, ◌∙◌, true, false, Option, none, some, List, [], ◌∷◌, Text, codes, ◌==◌,
  list_eq, nat_eq, option_eq, contains, Dict, lookup, arith,
}
use ss_common.Result.{Result, ok, err, ◌>>=◌}
use ss_common.Value.{value_or, Value, Members, null, str, find, get, is_true, str_of}
use ss_common.Types.{logical_to_kinds, canonical_kind, kind_compatible, kinds_of}
use ss_common.Rules.{RuleFinding, is_bool, kind_of, items_kind, logical_of}
use ss_common.Rules.Clean.{CleanProperty, type_errors-nil}
use ss_common.Contract.{FieldHead}
use ss_common.Contract.Loading.{LoadError, key, RecordParts, name_of, field_head}

pub has_true : (o : Option Value) → is_true (value_or null o) ≡ true → (v : Value) × (o ≡ some v)
has_true none h = cc
has_true (some v) h = (v, refl)

has_bool : (o : Option Value) → is_bool (value_or null o) ≡ true → (v : Value) × (o ≡ some v)
has_bool none h = cc
has_bool (some v) h = (v, refl)

has_text : (o : Option Value) (s : Text) → value_or null o ≡ str s → o ≡ some (str s)
has_text none s h = cc
has_text (some v) s h = ap some h

AllLack : Dict Text (List Text) → Type 0
AllLack [] = Unit
AllLack ((k, kinds) ∷ d) = (contains kinds [] ≡ false) × AllLack d

lookup-lack :
    (l : Text) (d : Dict Text (List Text)) (kinds : List Text)
    → AllLack d
    → lookup l d ≡ some kinds
    → contains kinds [] ≡ false
unfolding lookup AllLack
lookup-lack l [] kinds a h = ground arith
lookup-lack l ((k, ks) ∷ d) kinds a h = ground (arith, a.0, lookup-lack l d kinds a.1)

table_lacks : AllLack logical_to_kinds
unfolding AllLack ◌==◌ list_eq nat_eq
table_lacks = (refl, (refl, (refl, (refl, (refl, (refl, (refl, (refl, tt))))))))

-- No logical type is carried by no kind.
kind_compatible-nil : (l : Text) → kind_compatible l [] ≡ false
unfolding kind_compatible
kind_compatible-nil l = by_lookup (lookup l logical_to_kinds) refl
  where
    by_lookup :
        (o : Option (List Text)) → lookup l logical_to_kinds ≡ o → contains (kinds_of l) [] ≡ false
    by_lookup none e = ground arith
    by_lookup (some kinds) e = ground (arith, lookup-lack l logical_to_kinds kinds table_lacks)

untyped-compatible : (kind : Text) → kind_compatible [] kind ≡ false
unfolding kind_compatible lookup ◌==◌ list_eq nat_eq
untyped-compatible kind = refl

-- A step that succeeds hands on its value.
pub bind-ok {ℓ κ μ} :
    {E : Type ℓ} {A : Type κ} {B : Type μ} (m : Result E A) (f : A → Result E B) (a : A)
    (r : Result E B)
    → m ≡ ok a
    → f a ≡ r
    → (m >>= f) ≡ r
bind-ok (ok b) f a r h k = cc
bind-ok (err e) f a r h k = cc

pub key-found :
    {F : Type 0} (k : Text) (m : Members) (v : Value)
    → find k m ≡ some v
    → ◌≡◌ {A = Result (LoadError F) Value} (key k m) (ok v)
key-found k m v e = rw e refl

canonical_kind-nil : canonical_kind [] ≡ []
unfolding canonical_kind lookup ◌==◌ list_eq nat_eq
canonical_kind-nil = refl

module _ (shown : Value → Text) where
  has_logical :
      (kind : Text) (o : Option Value)
      → kind_compatible (str_of shown (value_or (str []) o)) kind ≡ true
      → (v : Value) × (o ≡ some v)
  has_logical kind none h = ground (arith, untyped-compatible kind)
  has_logical kind (some v) h = (v, refl)

  has_physical :
      (l : Text) (o : Option Value)
      → kind_compatible l (canonical_kind (str_of shown (value_or (str []) o))) ≡ true
      → (v : Value) × (o ≡ some v)
  has_physical l none h =
      absurd
        (wrong (sym (kind_compatible-nil l) ∙ ap (kind_compatible l) (sym canonical_kind-nil) ∙ h))
    where
      wrong : false ≡ true → ⊥
      wrong e = cc
  has_physical l (some v) h = (v, refl)

  -- The head of the field that a property becomes.
  pub record HeadOf (prop : Members) (name : Text) (parts : Option RecordParts) (h : FieldHead)
      : Type 0 where
    pub name_is : h.name ≡ name
    pub logical_is : h.logical_type ≡ logical_of shown prop
    pub kind_is : h.kind ≡ kind_of shown prop
    pub item_kind_is : h.item_kind ≡ items_kind shown (get (codes "items") prop)
    pub record_name_is : h.record_name ≡ name_of parts

  module _ {F : Type 0} (prop : Members) (parts : Option RecordParts) where
    assemble :
        (name : Text) (l p r d : Value)
        → find (codes "name") prop ≡ some (str name)
        → find (codes "logicalType") prop ≡ some l
        → find (codes "physicalType") prop ≡ some p
        → find (codes "required") prop ≡ some r
        → find (codes "description") prop ≡ some d
        → (h : FieldHead) × (◌≡◌ {A = Result (LoadError F) FieldHead}
            (field_head shown prop parts)
            (ok h))
          × HeadOf prop name parts h
    unfolding field_head
    assemble name l p r d e1 e2 e3 e4 e5 = (
      _,
      bind-ok _ _ _ _ (key-found _ prop _ e1) (
          bind-ok _ _ _ _ (key-found _ prop _ e2) (
            bind-ok _ _ _ _ (key-found _ prop _ e3) (
              bind-ok _ _ _ _ (key-found _ prop _ e4)
                (bind-ok _ _ _ _ (key-found _ prop _ e5) refl)))),
      record {
        name_is = refl;
        logical_is = rw e2 refl;
        kind_is = rw e3 refl;
        item_kind_is = refl;
        record_name_is = refl;
      },
    )

    pub field_head_lem :
        (objects : Members → Text → List RuleFinding) (model_names seen : List Text)
        (c : CleanProperty shown objects model_names prop seen)
        → (h : FieldHead) × (◌≡◌ {A = Result (LoadError F) FieldHead}
            (field_head shown prop parts)
            (ok h))
          × HeadOf prop c.name.name parts h
    field_head_lem objects model_names seen c =
        let (body, carrier, inner, compatible) =
          type_errors-nil shown objects model_names prop c.typed in
        let (l, e2) =
          has_logical (kind_of shown prop) (find (codes "logicalType") prop) compatible in
        let (p, e3) =
          has_physical (logical_of shown prop) (find (codes "physicalType") prop) compatible in
        let (r, e4) = has_bool (find (codes "required") prop) c.required in
        let (d, e5) = has_true (find (codes "description") prop) c.described in
        assemble c.name.name l p r d (has_text (find (codes "name") prop) c.name.name c.name.is_it)
          e2 e3 e4 e5
