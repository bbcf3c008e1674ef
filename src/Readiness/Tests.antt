-- ===== src/Readiness/Tests.antt =====
-- Runs of the checks on small messages.
use ss_common.Prelude.{
  ℕ, ◌≡◌, ◌↔◌, refl, true, none, some, [], ◌∷◌, Text, codes, ◌==◌, list_eq, nat_eq, option_eq,
  lookup, Distinct,
}
use ss_common.Value.{pos, int, str, list, end, member, Items, find}
use ss_common.Contract.{FieldHead, FieldSpecs, field_spec, ContractSpec}
use ss_common.Readiness.{
  used_twice, field_number_error, field_errors, field_numbers_errors, used_after, name_in,
}
use ss_common.Readiness.Numbers.{numbers_of, AllReady}
use ss_common.Readiness.Laws.{field_numbers_errors_iff}
use ss_common.Readiness.Formats.{proto, proto_errors, generation_errors}

abbrev head : Text → ℕ → FieldHead
head name n = record {
  name = name;
  logical_type = codes "integer";
  kind = codes "int";
  required = true;
  description = codes "x";
  options = end;
  item_kind = none;
  binding = [];
  generation = (codes "proto", member (codes "fieldNumber") (int (pos n)) end) ∷ [];
  record_name = none;
  record_description = [];
}

abbrev two_fields : ℕ → ℕ → FieldSpecs
two_fields m n =
    FieldSpecs.cons (field_spec (head (codes "a") m) FieldSpecs.nil)
      (FieldSpecs.cons (field_spec (head (codes "b") n) FieldSpecs.nil) FieldSpecs.nil)

two_fields-clean : field_numbers_errors (two_fields 1 2) [] [] (list Items.nil) ≡ some []
unfolding field_numbers_errors field_errors used_after field_number_error name_in lookup find ◌==◌
    list_eq nat_eq option_eq
two_fields-clean = refl

two_fields-twice :
    field_numbers_errors (two_fields 7 7) [] [] (list Items.nil)
    ≡ some (used_twice (codes "b") 7 ∷ [])
unfolding field_numbers_errors field_errors used_after field_number_error name_in lookup find ◌==◌
    list_eq nat_eq option_eq
two_fields-twice = refl

abbrev odd_names : ContractSpec
odd_names = record {
  contract_id = codes "c";
  version = codes "1.0.0";
  status = codes "active";
  name = codes "c";
  purpose = codes "x";
  fields = two_fields 1 2;
  binding = [];
  generation = (codes "proto", member (codes "reservedNames") (int (pos 5)) end) ∷ [];
}

-- A number where the reserved names should stand raises, where a finding is meant.
odd_names-raises : generation_errors odd_names proto ≡ none
unfolding generation_errors proto_errors field_numbers_errors field_errors used_after
    field_number_error name_in lookup find ◌==◌ list_eq nat_eq option_eq
odd_names-raises = refl

field_numbers_errors_iff_example :
    (field_numbers_errors
        (two_fields 1 2)
        []
        (pos 9 ∷ [])
        (list (Items.cons (str (codes "c")) Items.nil))
      ≡ some [])
    ↔ (Distinct (numbers_of (two_fields 1 2))
        × AllReady (two_fields 1 2) (pos 9 ∷ []) (list (Items.cons (str (codes "c")) Items.nil)))
field_numbers_errors_iff_example =
    field_numbers_errors_iff (two_fields 1 2) (pos 9 ∷ [])
      (list (Items.cons (str (codes "c")) Items.nil))
