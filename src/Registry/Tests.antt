-- ===== src/Registry/Tests.antt =====
-- A registry of one contract, and one whose contract has another id.
use ss_common.Prelude.{ℕ, ◌≡◌, refl, true, [], ◌∷◌, Text, codes, ◌==◌, nat_eq, list_eq}
use ss_common.Result.{Result, ok}
use ss_common.Contract.{ContractSpec, FieldSpecs}
use ss_common.Contract.Loading.{LoadError}
use ss_common.Registry.{
  RegistryEntry, other_id, Loaded, Paths, entry_errors, entries_errors, registered,
  unregistered_errors, consistency_errors, load_entries, load_contracts,
}

abbrev one_file : Paths ℕ
one_file = record {
  resolve = λ p. p;
  is_file = λ p. true;
  under_root = λ p. true;
  odcs_files = 0 ∷ [];
}

abbrev track : ContractSpec
track = record {
  contract_id = codes "track";
  version = codes "1.0.0";
  status = codes "active";
  name = codes "Track";
  purpose = codes "Tracks";
  fields = FieldSpecs.nil;
  binding = [];
  generation = [];
}

abbrev read_track : ℕ → Result (LoadError ℕ) ContractSpec
read_track p = ok track

abbrev entry_named : Text → RegistryEntry ℕ
entry_named name = record { contract_id = name; odcs = 0; owner = codes "core" }

abbrev track_loaded : Loaded ℕ ℕ
track_loaded = record { contracts = (codes "track", track) ∷ []; errors = [] }

-- A contract with another id than its key is a finding, and is left out.
other_key :
    load_contracts one_file read_track (entry_named (codes "trail") ∷ [])
    ≡ ok (record { contracts = []; errors = other_id (codes "trail") ∷ [] })
unfolding load_contracts load_entries consistency_errors entries_errors entry_errors registered
    unregistered_errors ◌==◌ list_eq nat_eq
other_key = refl
