-- ===== src/Registry/Complete.antt =====
-- A registry without findings.
use ss_common.Prelude.{◌≡◌, List, [], ◌∷◌, Text, nat_eq, list_eq, Dict}
use ss_common.Result.{Result}
use ss_common.Contract.{ContractSpec}
use ss_common.Registry.{RegistryEntry, Paths}

-- Each contract stands under its own id.
abbrev pub AllKeyed : Dict Text ContractSpec → Type 0
AllKeyed [] = Unit
AllKeyed ((cid, spec) ∷ d) = (spec.contract_id ≡ cid) × AllKeyed d

abbrev pub ids : {P : Type 0} → List (RegistryEntry P) → List Text
ids [] = []
ids (e ∷ es) = e.contract_id ∷ ids es

-- `resolve` goes all the way, and a path and its resolved form are the same file.
pub record IsSettled {P : Type 0} (paths : Paths P) : Type 0 where
  pub settled : (p : P) → paths.resolve (paths.resolve p) ≡ paths.resolve p
  pub same_file : (p : P) → paths.is_file (paths.resolve p) ≡ paths.is_file p
