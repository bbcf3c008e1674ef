-- ===== src/Evolution/History.antt =====
-- src/ss_contracts/tooling/evolution.py: the reviewed history of each contract, its check and the
-- freeze. The baseline files are a dictionary from contract ids to histories; the registry's
-- contracts come as their snapshots, with the errors that loading them gave.
pub mod Same
pub mod Laws
pub mod Atomic
use ss_common.Prelude.{
  ℕ, Bool, true, false, not, ◌&&◌, Option, none, some, List, [], ◌∷◌, ◌++◌, map, Text, Eq, ◌==◌,
  list_eq, nat_eq, bool_eq, option_eq, contains, difference, if◌then◌else◌, is_empty, Dict, keys,
  lookup, insert,
}
use ss_common.Evolution.Snapshot.{
  FieldKeys, FieldSnapshot, FieldSnapshots, plain, record_of, end, field, find, names, Snapshot,
  Change, breaking, ChangeReport, Detail, scalar_eq, int_eq,
}
use ss_common.Evolution.Classify.{classify_change, same_dict}
use ss_common.Evolution.Policy.{PolicyError, version_policy_errors}
use ss_common.Evolution.Numbers.{NumberError, proto_number_errors}

pub data EvolutionError : Type 0 where
  no_baseline no_history : EvolutionError
  policy in_history : PolicyError → EvolutionError
  proto_number : NumberError → EvolutionError
  stale_baseline : Text → EvolutionError
  load_error : Text → EvolutionError

-- `_step_errors`, the errors alone.
unfoldable pub step_errors : Snapshot → Snapshot → List PolicyError
step_errors older newer =
    version_policy_errors older.version newer.version (classify_change older newer)

-- `_history_errors`, over `itertools.pairwise`.
unfoldable pub history_errors : List Snapshot → List PolicyError
history_errors [] = []
history_errors (s ∷ []) = []
history_errors (s ∷ t ∷ ss) = step_errors s t ++ history_errors (t ∷ ss)

pub record ContractEvolution : Type 0 where
  pub baseline_version : Option Text
  pub change_class : Change
  pub details : List Detail
  pub errors : List EvolutionError
  pub history_versions : List Text

abbrev pub latest : Snapshot → List Snapshot → Snapshot
latest s [] = s
latest s (t ∷ ts) = latest t ts

abbrev version_of : Snapshot → Text
version_of s = s.version

abbrev unreviewed : EvolutionError → ContractEvolution
unreviewed e = record {
  baseline_version = none;
  change_class = breaking;
  details = [];
  errors = e ∷ [];
  history_versions = [];
}

abbrev pub reviewed_errors : List Snapshot → Snapshot → Snapshot → List EvolutionError
reviewed_errors history last current =
    map EvolutionError.policy (step_errors last current)
    ++ map in_history (history_errors history)
    ++ map proto_number (proto_number_errors (history ++ current ∷ []))

-- `evaluate`, given what `load_history` returned.
unfoldable pub evaluate : Option (List Snapshot) → Snapshot → ContractEvolution
evaluate none current = unreviewed no_baseline
evaluate (some []) current = unreviewed no_history
evaluate (some (s ∷ ss)) current =
    let last = latest s ss in
    let change = classify_change last current in
    record {
      baseline_version = some last.version;
      change_class = change.change_class;
      details = change.details;
      errors = reviewed_errors (s ∷ ss) last current;
      history_versions = map version_of (s ∷ ss);
    }

abbrev pub same_text_dict : Dict Text Text → Dict Text Text → List Text → Bool
same_text_dict d e [] = true
same_text_dict d e (k ∷ ks) = lookup k d == lookup k e && same_text_dict d e ks

unfoldable pub same_binding : Dict Text Text → Dict Text Text → Bool
same_binding d e = same_text_dict d e (keys d ++ keys e)

unfoldable pub same_keys : FieldKeys → FieldKeys → Bool
same_keys a b =
    a.logical_type == b.logical_type
    && (a.physical_type == b.physical_type
        && (a.items == b.items
            && (a.required == b.required
                && (a.proto_field_number == b.proto_field_number
                    && (a.record_name == b.record_name
                        && (same_dict a.options b.options && same_binding a.binding b.binding))))))

abbrev pub same_names : FieldSnapshots → FieldSnapshots → Bool
same_names fs gs =
    is_empty (difference (names fs) (names gs)) && is_empty (difference (names gs) (names fs))

-- Equality of the `dict`s of two snapshots, whatever the order of their keys.
unfoldable mutual
  pub same_field : FieldSnapshot → FieldSnapshot → Bool
  same_field (plain a) (plain b) = same_keys a b
  same_field (plain a) (record_of b gs) = false
  same_field (record_of a fs) (plain b) = false
  same_field (record_of a fs) (record_of b gs) =
      same_keys a b && same_names fs gs && same_each fs gs

  pub same_each : FieldSnapshots → FieldSnapshots → Bool
  same_each end gs = true
  same_each (field n f fs) gs = elim (find n gs) [
    | none ↦ false
    | some g ↦ same_field f g && same_each fs gs
  ]

-- `_comparable(a) == _comparable(b)`.
unfoldable pub comparable_equal : Snapshot → Snapshot → Bool
comparable_equal a b =
    a.contract_id == b.contract_id
    && (a.version == b.version
        && (same_binding a.binding b.binding
            && (same_names a.fields b.fields
                && (same_each a.fields b.fields && same_binding a.fingerprints b.fingerprints))))

-- The round of `freeze_baselines` for one contract: its errors and its history to record.
unfoldable pub freeze_one : Option (List Snapshot) → Snapshot → List EvolutionError × List Snapshot
freeze_one none current = ([], current ∷ [])
freeze_one (some []) current = ([], current ∷ [])
freeze_one (some (s ∷ ss)) current =
    if comparable_equal (latest s ss) current then ([], s ∷ ss) else (
      map EvolutionError.policy (step_errors (latest s ss) current)
          ++ map proto_number (proto_number_errors (s ∷ (ss ++ current ∷ []))),
      s ∷ (ss ++ current ∷ []),
    )

abbrev pub Baselines : Type 0
Baselines = Dict Text (List Snapshot)

-- The first loop of `freeze_baselines`, over the contracts in the order of their ids.
unfoldable pub freeze_all : Baselines → Dict Text Snapshot → List EvolutionError × Baselines
freeze_all files [] = ([], [])
freeze_all files ((id, current) ∷ contracts) =
    let (errors, history) = freeze_one (lookup id files) current in
    let (more, payloads) = freeze_all files contracts in (errors ++ more, (id, history) ∷ payloads)

-- Every contract's file is written, and the files of other contracts are removed: what is left are
-- the payloads.
abbrev pub written : Baselines → List EvolutionError → Baselines → Baselines × List EvolutionError
written files [] payloads = (payloads, [])
written files (e ∷ errors) payloads = (files, e ∷ errors)

-- `freeze_baselines`: the files afterwards, and the errors.
unfoldable pub freeze_baselines :
    Baselines → List EvolutionError → Dict Text Snapshot → Baselines × List EvolutionError
freeze_baselines files load_errors contracts =
    let (errors, payloads) = freeze_all files contracts in
    written files (load_errors ++ errors) payloads

unfoldable pub stale_errors : Baselines → List Text → List EvolutionError
stale_errors [] registered = []
stale_errors ((id, history) ∷ files) registered =
    let rest = stale_errors files registered in
    if contains registered id then rest else stale_baseline id ∷ rest

pub record EvolutionReport : Type 0 where
  pub contracts : List ContractEvolution
  pub errors : List EvolutionError

unfoldable pub evaluate_all : Baselines → Dict Text Snapshot → List ContractEvolution
evaluate_all files [] = []
evaluate_all files ((id, current) ∷ contracts) =
    evaluate (lookup id files) current ∷ evaluate_all files contracts

-- `check_evolution`.
unfoldable pub check_evolution :
    Baselines → List Text → List EvolutionError → Dict Text Snapshot → EvolutionReport
check_evolution files registered load_errors contracts = record {
  contracts = evaluate_all files contracts;
  errors = load_errors ++ stale_errors files registered;
}

abbrev pub all_ok : List ContractEvolution → Bool
all_ok [] = true
all_ok (c ∷ cs) = is_empty c.errors && all_ok cs

-- `EvolutionReport.ok`.
abbrev pub is_ok : EvolutionReport → Bool
is_ok r = is_empty r.errors && all_ok r.contracts
