-- ===== src/Readiness/Numbers.antt =====
-- What the proto field numbers of a message are like where there is no finding.
use ss_common.Prelude.{
  ℕ, ◌≡◌, ◌↔◌, refl, sym, ap, subst, Bool, true, false, Option, none, some, List, [], ◌∷◌, ◌++◌,
  Text, list_eq, nat_eq, Distinct, AllNew, AllNew-cons, arith,
}
use ss_common.Value.{ℤ, pos, negsuc, Value, null, bool, int, str, list, mapping, other, Items}
use ss_common.Contract.{FieldHead, FieldSpec, FieldSpecs, field_spec}
use ss_common.Readiness.{
  NumberFinding, is_usable, holds, field_number_error, name_in, is_record, field_number,
  name_errors, joined, nested, own_errors,
}

abbrev pub number_list : Value → List ℕ
number_list (int (pos n)) = n ∷ []
number_list _ = []

abbrev pub number_of : FieldSpec → List ℕ
number_of (field_spec h fs) = number_list (field_number h)

-- The field numbers of a message or a record.
abbrev pub numbers_of : FieldSpecs → List ℕ
numbers_of FieldSpecs.nil = []
numbers_of (FieldSpecs.cons f fs) = number_of f ++ numbers_of fs

-- The value is a number that proto allows and the message does not reserve.
abbrev pub IsNumber : List ℤ → Value → Type 0
IsNumber reserved v =
    (n : ℕ) × (v ≡ int (pos n)) × (is_usable n ≡ true) × (holds reserved n ≡ false)

abbrev mutual
  -- The field has a number and no reserved name, and where it is a record, so have its fields, each
  -- another number.
  pub IsReady : FieldSpec → List ℤ → Value → Type 0
  IsReady (field_spec h fs) reserved names =
      (IsNumber reserved (field_number h) × (name_in h.name names ≡ some false))
      × (is_record h ≡ true → Distinct (numbers_of fs) × AllReady fs [] (list Items.nil))

  pub AllReady : FieldSpecs → List ℤ → Value → Type 0
  AllReady FieldSpecs.nil reserved names = Unit
  AllReady (FieldSpecs.cons f fs) reserved names =
      IsReady f reserved names × AllReady fs reserved names

pub joined-nil :
    {A : Type 0} (a b : Option (List A)) → (joined a b ≡ some []) ↔ ((a ≡ some []) × (b ≡ some []))
joined-nil none b = (λ h. cc, λ h. cc)
joined-nil (some xs) none = (λ h. cc, λ h. cc)
joined-nil (some []) (some ys) = (λ h. (refl, h), λ h. h.1)
joined-nil (some (x ∷ xs)) (some ys) = (λ h. cc, λ h. cc)

pub nested-nil :
    (b : Bool) (name : Text) (o : Option (List NumberFinding))
    → (nested b name o ≡ some []) ↔ (b ≡ true → o ≡ some [])
nested-nil false name o = (λ h e. cc, λ h. refl)
nested-nil true name none = (λ h e. cc, λ h. ground (arith, h refl))
nested-nil true name (some []) = (λ h e. refl, λ h. refl)
nested-nil true name (some (f ∷ fs)) = (λ h e. cc, λ h. ground (arith, h refl))

name_errors-nil :
    (name : Text) (o : Option Bool) → (name_errors name o ≡ some []) ↔ (o ≡ some false)
name_errors-nil name none = (λ h. cc, λ h. cc)
name_errors-nil name (some true) = (λ h. cc, λ h. cc)
name_errors-nil name (some false) = (λ h. refl, λ h. refl)

the_number : Value → ℕ
the_number (int (pos n)) = n
the_number _ = 0

same_number : (n m : ℕ) → int (pos n) ≡ int (pos m) → m ≡ n
unfolding the_number
same_number n m e = sym (ap the_number e)

usable-back :
    (reserved : List ℤ) (n : ℕ)
    → IsNumber reserved (int (pos n))
    → (is_usable n ≡ true) × (holds reserved n ≡ false)
usable-back reserved n (m, e, u, r) = (
  subst (λ k. is_usable k ≡ true) (same_number n m e) u,
  subst (λ k. holds reserved k ≡ false) (same_number n m e) r,
)

field_number_error-nil :
    (name : Text) (v : Value) (used : List ℕ) (reserved : List ℤ)
    → ((field_number_error name v used reserved).0 ≡ [])
      ↔ (AllNew used (number_list v) × IsNumber reserved v)
unfolding field_number_error
field_number_error-nil name null used reserved = (λ h. cc, λ h. ground (arith, h.1.1))
field_number_error-nil name (bool b) used reserved = (λ h. cc, λ h. ground (arith, h.1.1))
field_number_error-nil name (str s) used reserved = (λ h. cc, λ h. ground (arith, h.1.1))
field_number_error-nil name (list vs) used reserved = (λ h. cc, λ h. ground (arith, h.1.1))
field_number_error-nil name (mapping m) used reserved = (λ h. cc, λ h. ground (arith, h.1.1))
field_number_error-nil name (other s) used reserved = (λ h. cc, λ h. ground (arith, h.1.1))
field_number_error-nil name (int (negsuc n)) used reserved = (λ h. cc, λ h. ground (arith, h.1.1))
field_number_error-nil name (int (pos n)) used reserved = (
  λ h. ((ground arith, tt), (n, refl, ground arith, ground arith)),
  λ h. ground (arith, h.0.0, (usable-back reserved n h.1).0, (usable-back reserved n h.1).1),
)

-- A number without a finding is used from there on.
pub field_number_error-used :
    (name : Text) (v : Value) (used : List ℕ) (reserved : List ℤ)
    → AllNew used (number_list v)
    → IsNumber reserved v
    → (field_number_error name v used reserved).1 ≡ number_list v ++ used
unfolding field_number_error
field_number_error-used name null used reserved new h = refl
field_number_error-used name (bool b) used reserved new h = refl
field_number_error-used name (str s) used reserved new h = refl
field_number_error-used name (list vs) used reserved new h = refl
field_number_error-used name (mapping m) used reserved new h = refl
field_number_error-used name (other s) used reserved new h = refl
field_number_error-used name (int (negsuc n)) used reserved new h = refl
field_number_error-used name (int (pos n)) used reserved new h =
    ground (arith, new.0, (usable-back reserved n h).0, (usable-back reserved n h).1)

some-nil_iff : (xs : List NumberFinding) → (some xs ≡ some []) ↔ (xs ≡ [])
some-nil_iff [] = (λ h. refl, λ h. refl)
some-nil_iff (x ∷ xs) = (λ h. cc, λ h. cc)

pub own_errors-nil :
    (h : FieldHead) (used : List ℕ) (reserved : List ℤ) (names : Value)
    → (own_errors h used reserved names ≡ some []) ↔ (
        AllNew used (number_list (field_number h))
        × (IsNumber reserved (field_number h) × (name_in h.name names ≡ some false)))
own_errors-nil h used reserved names =
    let own =
      joined-nil (some (field_number_error h.name (field_number h) used reserved).0)
        (name_errors h.name (name_in h.name names)) in
    let number = field_number_error-nil h.name (field_number h) used reserved in
    let wrap = some-nil_iff (field_number_error h.name (field_number h) used reserved).0 in
    let name = name_errors-nil h.name (name_in h.name names) in
    (
      λ e. let (a, b) = own.0 e in let (new, ok) = number.0 (wrap.0 a) in (new, (ok, name.0 b)),
      λ g. own.1 (wrap.1 (number.1 (g.0, g.1.0)), name.1 g.1.1),
    )

-- The numbers of one field against those before and after it.
pub split_new :
    (reserved : List ℤ) (v : Value) (used ns : List ℕ)
    → IsNumber reserved v
    → (AllNew used (number_list v) × (AllNew (number_list v ++ used) ns × Distinct ns))
      ↔ (AllNew used (number_list v ++ ns) × Distinct (number_list v ++ ns))
split_new reserved v used ns (n, e, u, r) = rw e (
  λ h.
      let (apart, _) = AllNew-cons n used ns in
      ((h.0.0, (apart h.1.0).1), ((apart h.1.0).0, h.1.1)),
  λ h. let (_, together) = AllNew-cons n used ns in ((h.0.0, tt), (together (h.1.0, h.0.1), h.1.1)),
)
