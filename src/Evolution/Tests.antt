-- ===== src/Evolution/Tests.antt =====
-- Sample snapshots, runs of the policy on them, and the theorems at them.
use ss_common.Prelude.{
  bool_eq, ℕ, ◌≡◌, ◌≢◌, ◌↔◌, ◌⊎◌, refl, Bool, true, false, none, some, List, [], ◌∷◌, Text, codes,
  Dict, ◌==◌, list_eq, nat_eq, option_eq, lookup, insert, sorted_set, split,
}
use ss_common.Value.{pos}
use ss_common.Evolution.Version.{parse_version, version_ltb, pair_leb}
use ss_common.Evolution.Snapshot.{
  FieldKeys, FieldSnapshots, plain, record_of, end, field, find, names, Snapshot, breaking,
  backward, note, scalar_eq, int_eq,
}
use ss_common.Evolution.Classify.{
  classify_change, change_notes, classify_fields, fields_notes, classify_field, own_notes,
  attribute_notes, same_dict, classify_binding, binding_note, each_key, report_notes, no_change,
}
use ss_common.Evolution.Policy.{version_policy_errors}
use ss_common.Evolution.Policy.Laws.{version_policy_errors_iff, IsAllowed}
use ss_common.Evolution.Breaking.{breaking_iff}
use ss_common.Evolution.Compatible.{IsCompatible}
use ss_common.Evolution.Numbers.{proto_number_errors, occurrences, numbered_fields, check, slot_eq}
use ss_common.Evolution.Numbers.Fields.{NamesOneField, proto_number_errors_iff}
use ss_common.Evolution.History.{
  EvolutionError, Baselines, comparable_equal, same_each, same_keys, same_binding, step_errors,
  history_errors, latest, evaluate, freeze_one, freeze_all, freeze_baselines,
}
use ss_common.Evolution.History.Same.{classify_change-same}
use ss_common.Evolution.History.Atomic.{AllAccepted, recorded, freeze_baselines_atomic}
use ss_common.Evolution.History.Laws.{
  freeze_one-history_errors, freeze_baselines-AllConforming, freeze_first_unchecked, AllConforming,
}

abbrev keys_with : ℕ → Bool → FieldKeys
keys_with n needed = record {
  logical_type = some (codes "string");
  physical_type = some (codes "string");
  items = none;
  required = some needed;
  proto_field_number = some (pos n);
  record_name = none;
  options = [];
  binding = [];
}

abbrev snapshot : Text → FieldSnapshots → Snapshot
snapshot v fs = record {
  contract_id = codes "c";
  version = v;
  binding = [];
  fields = fs;
  fingerprints = [];
}

abbrev one : Snapshot
one = snapshot (codes "1.0.0") (field (codes "a") (plain (keys_with 1 true)) end)

-- An optional field more.
abbrev two : Snapshot
two = snapshot (codes "1.1.0") (
    field (codes "b") (plain (keys_with 2 false))
      (field (codes "a") (plain (keys_with 1 true)) end))

-- A number that names two fields.
abbrev twice : Snapshot
twice = snapshot (codes "1.0.0") (
    field (codes "a") (plain (keys_with 1 true)) (field (codes "b") (plain (keys_with 1 true)) end))

program : Unit {0}
unfolding parse_version version_ltb pair_leb find names note classify_change change_notes
    classify_fields fields_notes classify_field own_notes attribute_notes same_dict classify_binding
    binding_note each_key report_notes version_policy_errors proto_number_errors occurrences
    numbered_fields check step_errors history_errors evaluate freeze_one freeze_all freeze_baselines
    comparable_equal same_each same_keys same_binding ◌==◌ list_eq nat_eq option_eq scalar_eq int_eq
    bool_eq slot_eq lookup insert sorted_set split
program = tt

class-two : (classify_change one two).change_class ≡ backward
unfolding program
class-two = refl

class-one : (classify_change two one).change_class ≡ breaking
unfolding program
class-one = refl

version-newline : parse_version (codes "10.2.x.4") ≡ record { major = 10; minor = 2; patch = 0 }
unfolding program
version-newline = refl

breaking_iff_example : ((classify_change one two).change_class ≢ breaking) ↔ IsCompatible one two
breaking_iff_example = breaking_iff one two

version_policy_errors_iff_example :
    (version_policy_errors (codes "1.0.0") (codes "1.1.0") (classify_change one two) ≡ [])
    ↔ IsAllowed
        (classify_change one two).change_class
        (parse_version (codes "1.0.0"))
        (parse_version (codes "1.1.0"))
version_policy_errors_iff_example =
    version_policy_errors_iff (codes "1.0.0") (codes "1.1.0") (classify_change one two)

-- A record in which a number changes its name between two versions.
abbrev record_keys : FieldKeys
record_keys = record (keys_with 1 true) { record_name = some (codes "Point") }

abbrev with_record : Text → Snapshot
with_record name =
    snapshot (codes "1.0.0")
      (field (codes "path") (record_of record_keys (field name (plain (keys_with 1 true)) end)) end)

renamed_in_record :
    proto_number_errors (with_record (codes "x") ∷ with_record (codes "y") ∷ []) ≢ []
unfolding program
renamed_in_record e = cc

proto_number_errors_iff_example :
    (proto_number_errors (with_record (codes "x") ∷ with_record (codes "y") ∷ []) ≡ [])
    ↔ NamesOneField (with_record (codes "x") ∷ with_record (codes "y") ∷ [])
proto_number_errors_iff_example =
    proto_number_errors_iff (with_record (codes "x") ∷ with_record (codes "y") ∷ [])

same-two : comparable_equal two two ≡ true
unfolding program
same-two = refl

classify_change-same_example : classify_change two two ≡ no_change
classify_change-same_example = classify_change-same two two same-two

frozen : freeze_one (some (one ∷ [])) two ≡ ([], one ∷ two ∷ [])
unfolding program
frozen = refl

conforming-one : history_errors (one ∷ []) ≡ []
unfolding program
conforming-one = refl

freeze_one-history_errors_example :
    (s : Snapshot) × (ss : List Snapshot) × (one ∷ two ∷ [] ≡ s ∷ ss)
    × (history_errors (s ∷ ss) ≡ history_errors (one ∷ []))
    × (step_errors (latest s ss) two ≡ [])
freeze_one-history_errors_example =
    freeze_one-history_errors (some (one ∷ [])) two (one ∷ two ∷ []) same-two frozen

abbrev files : Baselines
files = (codes "c", one ∷ []) ∷ []

abbrev contracts : Dict Text Snapshot
contracts = (codes "c", two) ∷ []

freeze_baselines-AllConforming_example : AllConforming (freeze_baselines files [] contracts).0
freeze_baselines-AllConforming_example =
    freeze_baselines-AllConforming files [] contracts (conforming-one, tt) (same-two, tt)

freeze_baselines_atomic_example :
    ((◌≡◌ {A = List EvolutionError} [] [])
      × AllAccepted files contracts
      × (((freeze_baselines files [] contracts).1 ≡ [])
          × ((id : Text)
              → lookup id (freeze_baselines files [] contracts).0
                ≡ recorded files id (lookup id contracts))))
    ⊎ (¬ ((◌≡◌ {A = List EvolutionError} [] []) × AllAccepted files contracts)
        × ((freeze_baselines files [] contracts).1 ≢ [])
        × ((freeze_baselines files [] contracts).0 ≡ files))
freeze_baselines_atomic_example = freeze_baselines_atomic files [] contracts

repeated : proto_number_errors (twice ∷ []) ≢ []
unfolding program
repeated e = cc

freeze_first_unchecked_example :
    (freeze_one none twice ≡ ([], twice ∷ [])) × ((evaluate (some (twice ∷ [])) twice).errors ≢ [])
freeze_first_unchecked_example = freeze_first_unchecked twice repeated
