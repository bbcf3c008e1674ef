-- ===== src/Plan/Integrity/Registry.antt =====
-- src/ss_kit/quality/plan_integrity.py: the findings on the capability registry.
use ss_common.Prelude.{
  ◌≡◌, ◌↔◌, refl, Bool, true, false, not, ◌&&◌, ◌||◌, Option, some, List, [], ◌∷◌, ◌++◌, map, Text,
  codes, ◌==◌, list_eq, nat_eq, option_eq, ==_iff, contains, Distinct, All, AllNew, AllNew-cons,
  AllNew-nil, if◌then◌else◌, arith,
}
use ss_common.Plan.{Task}
use ss_common.Plan.Integrity.{
  PlanFinding, listed_twice, no_evaluation, no_link, not_served, bad_status, finding_if, serves,
}
use ss_common.Plan.Integrity.Tasks.{finding_if-nil, finding_unless-nil, both}

pub record Capability : Type 0 where
  pub identifier : Text
  pub status : Text
  pub evaluation : Text
  pub implementation : Text

abbrev pub shipped : Text
shipped = codes "shipped"

abbrev pub planned : Text
planned = codes "planned"

abbrev pub capability_statuses : List Text
capability_statuses = shipped ∷ planned ∷ []

-- `[^)]+\)`; the first argument is that there is a character already.
unfoldable pub link_target : Bool → Text → Bool
link_target some_yet [] = false
link_target some_yet (c ∷ s) = let rest = link_target true s in if c == b')' then some_yet else rest

abbrev link_open : Text → Bool
link_open [] = false
link_open (c ∷ s) = c == b'(' && link_target false s

-- `[^\]]+\]\([^)]+\)`.
unfoldable pub link_label : Bool → Text → Bool
link_label some_yet [] = false
link_label some_yet (c ∷ s) =
    let rest = link_label true s in if c == b']' then some_yet && link_open s else rest

-- `_LINK.search`.
unfoldable pub has_link : Text → Bool
has_link [] = false
has_link (c ∷ s) = c == b'[' && link_label false s || has_link s

abbrev pub no_evaluations : List Text
no_evaluations = [] ∷ codes "-" ∷ codes "--" ∷ []

unfoldable pub capability_findings : List (Option Text) → List Text → Capability → List PlanFinding
capability_findings served seen c =
    finding_if (contains seen c.identifier) (listed_twice c.identifier)
    ++ (finding_if (not (contains capability_statuses c.status)) (bad_status c.identifier c.status)
        ++ (finding_if (contains no_evaluations c.evaluation) (no_evaluation c.identifier)
            ++ (finding_if (c.status == shipped && not (has_link c.implementation))
                  (no_link c.identifier)
                ++ finding_if (c.status == planned && not (contains served (some c.identifier)))
                    (not_served c.identifier))))

-- The loop of `_registry_findings`, for what the tasks serve and the identifiers before.
unfoldable pub capabilities_findings :
    List (Option Text) → List Text → List Capability → List PlanFinding
capabilities_findings served seen [] = []
capabilities_findings served seen (c ∷ cs) =
    capability_findings served seen c ++ capabilities_findings served (c.identifier ∷ seen) cs

unfoldable pub registry_findings : List Capability → List Task → List PlanFinding
registry_findings capabilities tasks = capabilities_findings (map serves tasks) [] capabilities

-- The capability says how it is known, a shipped one links to its documentation, and a planned one
-- is served by a task.
abbrev pub IsAccounted : List (Option Text) → Capability → Type 0
IsAccounted served c =
    (contains capability_statuses c.status ≡ true)
    × ((contains no_evaluations c.evaluation ≡ false)
        × ((c.status ≡ shipped → has_link c.implementation ≡ true)
            × (c.status ≡ planned → contains served (some c.identifier) ≡ true)))

finding_where-nil :
    (a b : Text) (c : Bool) (f : PlanFinding)
    → (finding_if (a == b && not c) f ≡ []) ↔ (a ≡ b → c ≡ true)
finding_where-nil a b false f =
    (λ h e. ground (arith, ==_iff a b), λ h. ground (arith, ==_iff a b, h))
finding_where-nil a b true f = (λ h e. refl, λ h. ground arith)

capability_findings-nil :
    (served : List (Option Text)) (seen : List Text) (c : Capability)
    → (capability_findings served seen c ≡ [])
      ↔ ((contains seen c.identifier ≡ false) × IsAccounted served c)
unfolding capability_findings
capability_findings-nil served seen c = both _ _ (finding_if-nil _ _) (
    both _ _ (finding_unless-nil _ _) (
      both _ _ (finding_if-nil _ _) (
        both _ _ (finding_where-nil c.status shipped _ _)
          (finding_where-nil c.status planned _ _))))

abbrev pub capability_id : Capability → Text
capability_id c = c.identifier

capabilities_findings-nil :
    (served : List (Option Text)) (seen : List Text) (cs : List Capability)
    → (capabilities_findings served seen cs ≡ []) ↔ (
        AllNew seen (map capability_id cs)
        × (Distinct (map capability_id cs) × All (IsAccounted served) cs))
unfolding capabilities_findings
capabilities_findings-nil served seen [] = (λ h. (tt, (tt, tt)), λ h. refl)
capabilities_findings-nil served seen (c ∷ cs) =
    let (split, join) =
      both _ _ (capability_findings-nil served seen c)
        (capabilities_findings-nil served (c.identifier ∷ seen) cs) in
    let (apart, together) = AllNew-cons c.identifier seen (map capability_id cs) in
    (
      λ h.
          let ((new, ok), (news, (distinct, all_ok))) = split h in
          ((new, (apart news).1), (((apart news).0, distinct), (ok, all_ok))),
      λ h.
          let ((new, news), ((once, distinct), (ok, all_ok))) = h in
          join ((new, ok), (together (once, news), (distinct, all_ok))),
    )

-- There is no finding on the registry just where no capability is listed twice and every one has a
-- known status and an evaluation, a link to its documentation where it is shipped, and a task that
-- serves it where it is planned.
pub registry_findings_iff :
    (cs : List Capability) (ts : List Task)
    → (registry_findings cs ts ≡ [])
      ↔ (Distinct (map capability_id cs) × All (IsAccounted (map serves ts)) cs)
unfolding registry_findings
registry_findings_iff cs ts =
    let (there, back) = capabilities_findings-nil (map serves ts) [] cs in
    (λ h. (there h).1, λ h. back (AllNew-nil (map capability_id cs), h))
