-- ===== src/Evolution/Policy.antt =====
-- src/ss_contracts/tooling/evolution_policy.py: the bump that each class of change needs.
pub mod Laws
use ss_common.Prelude.{ℕ, ◌≡◌, Bool, true, false, not, List, [], ◌∷◌, Text, leb, if◌then◌else◌}
use ss_common.Evolution.Version.{Version, parse_version, version_ltb, pair_leb}
use ss_common.Evolution.Snapshot.{Change, identical, backward, breaking, ChangeReport}

pub data PolicyError : Type 0 where
  went_backwards : (old new : Text) → PolicyError
  no_bump needs_major needs_minor : (old new : Text) → ChangeReport → PolicyError

-- `new <= old` on tuples.
abbrev version_leb : Version → Version → Bool
version_leb a b = not (version_ltb b a)

abbrev pub bump_errors : Text → Text → ChangeReport → Version → Version → Change → List PolicyError
bump_errors old_version new_version change old new identical =
    if version_ltb new old then went_backwards old_version new_version ∷ [] else []
bump_errors old_version new_version change old new breaking =
    if version_leb new old
    then no_bump old_version new_version change ∷ []
    else if leb new.major old.major
    then needs_major old_version new_version change ∷ []
    else []
bump_errors old_version new_version change old new backward =
    if version_leb new old
    then no_bump old_version new_version change ∷ []
    else if pair_leb new old
    then needs_minor old_version new_version change ∷ []
    else []

unfoldable pub version_policy_errors : Text → Text → ChangeReport → List PolicyError
version_policy_errors old_version new_version change =
    bump_errors old_version new_version change (parse_version old_version)
      (parse_version new_version) change.change_class
