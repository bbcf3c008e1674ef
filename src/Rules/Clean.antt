-- ===== src/Rules/Clean.antt =====
-- What a property without findings is like.
use ss_common.Prelude.{
  ◌≡◌, inl, inr, refl, Bool, true, false, not, List, [], ◌∷◌, map, Text, codes, ◌==◌, list_eq,
  nat_eq, option_eq, contains, if◌then◌else◌, is_empty, append-eq-nil, arith, Bool-cases,
}
use ss_common.Value.{Value, Members, null, bool, int, str, list, mapping, other, get, is_true}
use ss_common.Types.{kind_compatible, kinds_of, item_kinds, array_kind}
use ss_common.Rules.{
  RuleFinding, in_property, rule_if, name_errors, is_bool, kind_of, logical_of, record_name_errors,
}
use ss_common.Rules.Words.{is_field_name, is_reserved}
use ss_common.Rules.Properties.{
  inner_errors, items_errors, type_errors, body_errors, property_errors,
}

pub map-nil : {A B : Type 0} (f : A → B) (xs : List A) → map f xs ≡ [] → xs ≡ []
map-nil f [] h = refl
map-nil f (x ∷ xs) h = cc

pub not-false : (b : Bool) → not b ≡ false → b ≡ true
not-false true h = refl
not-false false h = cc

pub rule_if-nil : (b : Bool) (f : RuleFinding) → rule_if b f ≡ [] → b ≡ false
rule_if-nil true f h = cc
rule_if-nil false f h = refl

-- Where neither test of a chain finds anything, its last branch finds nothing.
branches :
    (a b c : Bool) (x y : RuleFinding) (z w : List RuleFinding)
    → (if a then x ∷ [] else if not b then y ∷ [] else if c then z else w) ≡ []
    → (b ≡ true) × (c ≡ true → z ≡ []) × (c ≡ false → w ≡ [])
branches true b c x y z w h = cc
branches false false c x y z w h = cc
branches false true true x y z w h = (refl, (λ e. h), (λ e. cc))
branches false true false x y z w h = (refl, (λ e. cc), (λ e. h))

-- The name, and the names seen after it.
pub record CleanName (model_names : List Text) (v : Value) (seen : List Text) : Type 0 where
  pub name : Text
  pub is_it : v ≡ str name
  pub snake : is_field_name name ≡ true
  pub new : contains seen name ≡ false
  pub free : is_reserved model_names name ≡ false
  pub noted : (name_errors model_names v seen).1 ≡ name ∷ seen

name_errors-nil :
    (model_names : List Text) (v : Value) (seen : List Text)
    → (name_errors model_names v seen).0 ≡ []
    → CleanName model_names v seen
unfolding name_errors
name_errors-nil models (str s) seen h = record {
  name = s;
  is_it = refl;
  snake = ground arith;
  new = ground arith;
  free = ground arith;
  noted = ground arith;
}
name_errors-nil models null seen h = cc
name_errors-nil models (bool b) seen h = cc
name_errors-nil models (int n) seen h = cc
name_errors-nil models (list vs) seen h = cc
name_errors-nil models (mapping m) seen h = cc
name_errors-nil models (other s) seen h = cc

module _ (shown : Value → Text) (objects : Members → Text → List RuleFinding)
    (model_names : List Text) where
  -- What a property without findings satisfies, whatever its objects are checked by.
  pub record CleanProperty (prop : Members) (seen : List Text) : Type 0 where
    pub name : CleanName model_names (get (codes "name") prop) seen
    pub described : is_true (get (codes "description") prop) ≡ true
    pub required : is_bool (get (codes "required") prop) ≡ true
    pub typed : type_errors shown objects prop ≡ []
    pub record_named : record_name_errors shown prop ≡ []

  pub property_errors-nil :
      (prop : Members) (seen : List Text)
      → (property_errors shown objects model_names (mapping prop) seen).0 ≡ []
      → (c : CleanProperty prop seen) × ((property_errors shown objects model_names
            (mapping prop)
            seen).1
          ≡ c.name.name ∷ seen)
  unfolding property_errors body_errors
  property_errors-nil prop seen h =
      let (names, body) = append-eq-nil _ _ (map-nil (in_property (get (codes "name") prop)) _ h) in
      let (a, r1) = append-eq-nil _ _ body in
      let (b, r2) = append-eq-nil _ _ r1 in
      let (c, r3) = append-eq-nil _ _ r2 in
      let (d, r4) = append-eq-nil _ _ r3 in
      let clean = name_errors-nil model_names (get (codes "name") prop) seen names in
      (
        record {
          name = clean;
          described = not-false _ (rule_if-nil _ _ a);
          required = not-false _ (rule_if-nil _ _ b);
          typed = c;
          record_named = d;
        },
        clean.noted,
      )

  -- The body that may be an object: the items of an array, or the property.
  pub data Carrier (prop : Members) : Members → Type 0 where
    of_items :
        (items : Members)
        → (kind_of shown prop == array_kind) ≡ true
        → get (codes "items") prop ≡ mapping items
        → contains item_kinds (kind_of shown items) ≡ true
        → Carrier prop items
    of_itself : (kind_of shown prop == array_kind) ≡ false → Carrier prop prop

  items_errors-nil :
      (prop : Members) (v : Value)
      → (kind_of shown prop == array_kind) ≡ true
      → get (codes "items") prop ≡ v
      → items_errors shown objects v ≡ []
      → (body : Members) × Carrier prop body
        × (inner_errors shown objects body (kind_of shown body) ≡ [])
  unfolding items_errors
  items_errors-nil prop (mapping items) a e h =
      elim (Bool-cases (contains item_kinds (kind_of shown items))) [
        | inl k ↦ (items, of_items items a e k, ground arith)
        | inr k ↦ absurd (ground arith)
      ]
  items_errors-nil prop null a e h = cc
  items_errors-nil prop (bool b) a e h = cc
  items_errors-nil prop (int n) a e h = cc
  items_errors-nil prop (str s) a e h = cc
  items_errors-nil prop (list vs) a e h = cc
  items_errors-nil prop (other s) a e h = cc

  pub type_errors-nil :
      (prop : Members)
      → type_errors shown objects prop ≡ []
      → (body : Members) × Carrier prop body
        × (inner_errors shown objects body (kind_of shown body) ≡ [])
        × (kind_compatible (logical_of shown prop) (kind_of shown prop) ≡ true)
  unfolding type_errors
  type_errors-nil prop h =
      let (k, array, plain) =
        branches (is_empty (kinds_of (logical_of shown prop)))
          (kind_compatible (logical_of shown prop) (kind_of shown prop))
          (kind_of shown prop == array_kind) _ _ _ _ h in
      elim (Bool-cases (kind_of shown prop == array_kind)) [
        | inl a ↦
            let (body, c, i) = items_errors-nil prop (get (codes "items") prop) a refl (array a) in
            (body, c, i, k)
        | inr a ↦ (prop, of_itself a, plain a, k)
      ]
