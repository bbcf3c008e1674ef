-- ===== src/Registry.antt =====
-- src/ss_contracts/tooling/registry.py: the consistency of a registry and the loading of its contracts.
-- Paths, what `resolve`, `is_file` and `is_relative_to` tell of them, the ODCS files under the root in
-- their order, are parameters. The loader of one path is an argument: `load_contract` of
-- src/ss_contracts/tooling/odcs.py at the path's text, as Contract/Loading has it.
pub mod Complete
mod Tests
use ss_common.Prelude.{
  ℕ, Bool, true, false, not, ◌&&◌, Option, none, some, List, [], ◌∷◌, ◌++◌, Text, codes, Eq, ◌==◌,
  nat_eq, list_eq, if◌then◌else◌, contains, Dict,
}
use ss_common.Result.{Result, ok, err, ◌>>=◌}
use ss_common.Value.{Value}
use ss_common.Contract.{ContractSpec}
use ss_common.Contract.Loading.{LoadError, not_ascii, invalid_yaml, not_a_mapping, findings}

pub record RegistryEntry (P : Type 0) : Type 0 where
  pub contract_id : Text
  pub odcs : P
  pub owner : Text

pub data RegistryFinding (P F : Type 0) : Type 0 where
  leaves_root no_file other_id : (contract_id : Text) → RegistryFinding P F
  not_registered : P → RegistryFinding P F
  of_contract : (contract_id : Text) → LoadError F → RegistryFinding P F

-- The errors that are a ContractError.
abbrev pub is_contract_error : {F : Type 0} → LoadError F → Bool
is_contract_error not_ascii = true
is_contract_error invalid_yaml = true
is_contract_error not_a_mapping = true
is_contract_error (findings official rules) = true
is_contract_error _ = false

pub record Loaded (P F : Type 0) : Type 0 where
  pub contracts : Dict Text ContractSpec
  pub errors : List (RegistryFinding P F)

-- What is asked of the file system.
pub record Paths (P : Type 0) : Type 0 where
  pub resolve : P → P
  pub is_file : P → Bool
  pub under_root : P → Bool
  pub odcs_files : List P

module _ {P : Type 0} (paths : Paths P) where
  -- `Registry.contains`
  abbrev pub inside_root : P → Bool
  inside_root path = paths.under_root (paths.resolve path)

  unfoldable pub registered : List (RegistryEntry P) → List P
  registered [] = []
  registered (e ∷ es) = paths.resolve e.odcs ∷ registered es

module _ {P F : Type 0} (paths : Paths P) where
  unfoldable pub entry_errors : RegistryEntry P → List (RegistryFinding P F)
  entry_errors e =
      if not (inside_root paths (paths.resolve e.odcs))
      then leaves_root e.contract_id ∷ []
      else if not (paths.is_file (paths.resolve e.odcs))
      then no_file e.contract_id ∷ []
      else []

  unfoldable pub entries_errors : List (RegistryEntry P) → List (RegistryFinding P F)
  entries_errors [] = []
  entries_errors (e ∷ es) = entry_errors e ++ entries_errors es

  module _ ⦃eq : Eq P⦄ where
    unfoldable pub unregistered_errors : List P → List P → List (RegistryFinding P F)
    unregistered_errors known [] = []
    unregistered_errors known (p ∷ ps) =
        (if not (contains known (paths.resolve p)) then not_registered p ∷ [] else [])
        ++ unregistered_errors known ps

    -- `consistency_errors`
    unfoldable pub consistency_errors : List (RegistryEntry P) → List (RegistryFinding P F)
    consistency_errors es =
        entries_errors es ++ unregistered_errors (registered paths es) paths.odcs_files

  -- What a contract adds before the later ones, or what its loading raises; what is no ContractError
  -- ends the loop.
  abbrev pub kept : Text → ContractSpec → Loaded P F → Loaded P F
  kept cid spec rest =
      if spec.contract_id == cid
      then record { contracts = (cid, spec) ∷ rest.contracts; errors = rest.errors }
      else record { contracts = rest.contracts; errors = other_id cid ∷ rest.errors }

  abbrev pub failed : Text → LoadError F → Loaded P F → Loaded P F
  failed cid e rest = record {
    contracts = rest.contracts;
    errors = of_contract cid e ∷ rest.errors;
  }

  abbrev pub added :
      Text
      → Result (LoadError F) ContractSpec
      → Result (LoadError F) (Loaded P F)
      → Result (LoadError F) (Loaded P F)
  added cid (ok spec) rest = rest >>= λ r. ok (kept cid spec r)
  added cid (err e) rest =
      if is_contract_error e then (rest >>= λ r. ok (failed cid e r)) else err e

  module _ (load_contract : P → Result (LoadError F) ContractSpec) where
    -- The loop of `load_contracts`.
    unfoldable pub load_entries : List (RegistryEntry P) → Result (LoadError F) (Loaded P F)
    load_entries [] = ok (record { contracts = []; errors = [] })
    load_entries (e ∷ es) =
        let rest = load_entries es in
        if inside_root paths e.odcs && paths.is_file e.odcs
        then added e.contract_id (load_contract e.odcs) rest
        else rest

    -- `load_contracts`
    unfoldable pub load_contracts :
        ⦃eq : Eq P⦄ → List (RegistryEntry P) → Result (LoadError F) (Loaded P F)
    load_contracts es = do
      loaded ← load_entries es
      ok (record { contracts = loaded.contracts; errors = consistency_errors es ++ loaded.errors })
