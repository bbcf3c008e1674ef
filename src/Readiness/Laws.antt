-- ===== src/Readiness/Laws.antt =====
-- The check of proto field numbers against what it asks of a message.
use ss_common.Prelude.{
  ℕ, ◌≡◌, ◌↔◌, refl, sym, subst, some, List, [], ◌++◌, list_eq, nat_eq, Distinct, AllNew,
  AllNew-nil,
}
use ss_common.Value.{ℤ, Value, list, Items}
use ss_common.Contract.{FieldHead, FieldSpec, FieldSpecs, field_spec}
use ss_common.Readiness.{
  is_record, field_number, nested, own_errors, field_errors, field_numbers_errors, used_after,
}
use ss_common.Readiness.Numbers.{
  number_of, numbers_of, IsReady, AllReady, joined-nil, nested-nil, field_number_error-used,
  own_errors-nil, split_new,
}

-- The field's share: its number is new, and it is ready.
abbrev FieldIff : FieldSpec → Type 0
FieldIff f =
    (used : List ℕ) (reserved : List ℤ) (names : Value)
    → (field_errors f used reserved names ≡ some [])
      ↔ (AllNew used (number_of f) × IsReady f reserved names)

abbrev FieldsIff : FieldSpecs → Type 0
FieldsIff fs =
    (used : List ℕ) (reserved : List ℤ) (names : Value)
    → (field_numbers_errors fs used reserved names ≡ some [])
      ↔ (AllNew used (numbers_of fs) × (Distinct (numbers_of fs) × AllReady fs reserved names))

field_step : (h : FieldHead) (fs : FieldSpecs) → FieldsIff fs → FieldIff (field_spec h fs)
unfolding field_errors
field_step h fs ih used reserved names =
    let inner = field_numbers_errors fs [] [] (list Items.nil) in
    let (split, join) =
      joined-nil (own_errors h used reserved names) (nested (is_record h) h.name inner) in
    let (own, own_back) = own_errors-nil h used reserved names in
    let (deep, deep_back) = nested-nil (is_record h) h.name inner in
    let (sub, sub_back) = ih [] [] (list Items.nil) in
    (
      λ e. let (a, b) = split e in let (new, ok) = own a in (new, (ok, λ r. (sub (deep b r)).1)),
      λ g.
          join (
            own_back (g.0, g.1.0),
            deep_back (λ r. sub_back (AllNew-nil (numbers_of fs), g.1.1 r)),
          ),
    )

-- What a clean field leaves as used.
used_after_lem :
    (f : FieldSpec) (used : List ℕ) (reserved : List ℤ) (names : Value)
    → AllNew used (number_of f)
    → IsReady f reserved names
    → used_after f used reserved ≡ number_of f ++ used
unfolding used_after
used_after_lem (field_spec h fs) used reserved names new ready =
    field_number_error-used h.name (field_number h) used reserved new ready.0.0

ready_number :
    (f : FieldSpec) (reserved : List ℤ) (names : Value) (used ns : List ℕ)
    → IsReady f reserved names
    → (AllNew used (number_of f) × (AllNew (number_of f ++ used) ns × Distinct ns))
      ↔ (AllNew used (number_of f ++ ns) × Distinct (number_of f ++ ns))
ready_number (field_spec h fs) reserved names used ns ready =
    split_new reserved (field_number h) used ns ready.0.0

cons_step :
    (f : FieldSpec) (fs : FieldSpecs) → FieldIff f → FieldsIff fs → FieldsIff (FieldSpecs.cons f fs)
unfolding field_numbers_errors
cons_step f fs one all used reserved names =
    let (split, join) =
      joined-nil (field_errors f used reserved names)
        (field_numbers_errors fs (used_after f used reserved) reserved names) in
    let (head, head_back) = one used reserved names in
    let (rest, rest_back) = all (used_after f used reserved) reserved names in
    (
      λ e.
          let (a, b) = split e in
          let (new, ready) = head a in
          let (apart, (distinct, more)) = rest b in
          let (both, once) = (ready_number f reserved names used (numbers_of fs) ready).0 (
            new,
            (
              subst (λ u. AllNew u (numbers_of fs)) (used_after_lem f used reserved names new ready)
                  apart,
              distinct,
            ),
          ) in
          (both, (once, (ready, more))),
      λ g.
          let (both, (once, (ready, more))) = g in
          let (new, (apart, distinct)) =
            (ready_number f reserved names used (numbers_of fs) ready).1 (both, once) in
          join (
            head_back (new, ready),
            rest_back (
              subst (λ u. AllNew u (numbers_of fs))
                  (sym (used_after_lem f used reserved names new ready)) apart,
              (distinct, more),
            ),
          ),
    )

nil_step : FieldsIff FieldSpecs.nil
unfolding field_numbers_errors
nil_step used reserved names = (λ e. (tt, (tt, tt)), λ g. refl)

mutual
  field_iff : (f : FieldSpec) → FieldIff f
  field_iff (field_spec h fs) = field_step h fs (fields_iff fs)

  fields_iff : (fs : FieldSpecs) → FieldsIff fs
  fields_iff FieldSpecs.nil = nil_step
  fields_iff (FieldSpecs.cons f fs) = cons_step f fs (field_iff f) (fields_iff fs)

-- The check of a message's proto numbers has no finding just where no two of its fields have the
-- same number, and every field has a usable number that is not reserved and a name that is not
-- reserved, the fields of a record likewise among themselves.
pub field_numbers_errors_iff :
    (fs : FieldSpecs) (reserved : List ℤ) (names : Value)
    → (field_numbers_errors fs [] reserved names ≡ some [])
      ↔ (Distinct (numbers_of fs) × AllReady fs reserved names)
field_numbers_errors_iff fs reserved names =
    let (there, back) = fields_iff fs [] reserved names in
    (λ e. (there e).1, λ g. back (AllNew-nil (numbers_of fs), g))
