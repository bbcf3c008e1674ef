-- ===== src/Evolution/Policy/Laws.antt =====
-- The bump policy against the order of versions.
use ss_common.Prelude.{
  ◌≡◌, ◌↔◌, ◌<◌, ◌⊎◌, inl, inr, true, [], Text, nat_eq, ==_iff, arith, Bool-cases,
}
use ss_common.Evolution.Version.{Version, parse_version, version_ltb, pair_leb}
use ss_common.Evolution.Snapshot.{Change, identical, backward, breaking, ChangeReport}
use ss_common.Evolution.Policy.{bump_errors, version_policy_errors}

-- `a` comes before `b`.
abbrev pub Precedes : Version → Version → Type 0
Precedes a b =
    (a.major < b.major)
    ⊎ ((a.major ≡ b.major) × ((a.minor < b.minor) ⊎ ((a.minor ≡ b.minor) × (a.patch < b.patch))))

-- The step of the version that a class of change needs.
abbrev pub IsAllowed : Change → Version → Version → Type 0
IsAllowed identical old new = ¬ (Precedes new old)
IsAllowed backward old new =
    (old.major < new.major) ⊎ ((old.major ≡ new.major) × (old.minor < new.minor))
IsAllowed breaking old new = old.major < new.major

module _ (a b : Version) where
  version_ltb_iff : (version_ltb a b ≡ true) ↔ Precedes a b
  unfolding version_ltb
  version_ltb_iff = (
    λ h. ground (arith, ==_iff a.major b.major, ==_iff a.minor b.minor),
    λ h. ground (arith, ==_iff a.major b.major, ==_iff a.minor b.minor),
  )

module _ (old_version new_version : Text) (change : ChangeReport) (old new : Version) where
  bump_errors_iff :
      (c : Change)
      → (bump_errors old_version new_version change old new c ≡ []) ↔ IsAllowed c old new
  unfolding version_ltb pair_leb
  bump_errors_iff identical = (
    λ h p. ground (arith, (version_ltb_iff new old).1 p),
    λ h. elim (Bool-cases (version_ltb new old)) [
      | inl t ↦ absurd (h ((version_ltb_iff new old).0 t))
      | inr f ↦ ground arith
    ],
  )
  bump_errors_iff backward = (
    λ h.
        ground (
          arith,
          ==_iff old.major new.major,
          ==_iff old.minor new.minor,
          ==_iff new.major old.major,
        ),
    λ h.
        ground (
          arith,
          ==_iff old.major new.major,
          ==_iff old.minor new.minor,
          ==_iff new.major old.major,
        ),
  )
  bump_errors_iff breaking = (
    λ h.
        ground (
          arith,
          ==_iff old.major new.major,
          ==_iff old.minor new.minor,
          ==_iff new.major old.major,
        ),
    λ h.
        ground (
          arith,
          ==_iff old.major new.major,
          ==_iff old.minor new.minor,
          ==_iff new.major old.major,
        ),
  )

-- A step between two versions passes the policy exactly when it is the bump that the class of the
-- change needs: a higher major version for a breaking change, a higher major or minor version for a
-- backward-compatible one, and no step backwards where nothing changed.
pub version_policy_errors_iff :
    (old_version new_version : Text) (change : ChangeReport)
    → (version_policy_errors old_version new_version change ≡ [])
      ↔ IsAllowed change.change_class (parse_version old_version) (parse_version new_version)
unfolding version_policy_errors
version_policy_errors_iff old_version new_version change =
    bump_errors_iff old_version new_version change (parse_version old_version)
      (parse_version new_version) change.change_class
