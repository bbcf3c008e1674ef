-- ===== src/Plan/Integrity.antt =====
-- src/ss_kit/quality/plan_integrity.py: the findings on the plan's tasks.
-- `str.upper` is Unicode's table, a parameter.
pub mod Registry
pub mod Tasks
pub mod Dependencies
mod Tests
use ss_common.Prelude.{
  is_space, lstrip, rstrip, strip, ℕ, Bool, true, false, not, ◌&&◌, ◌||◌, Option, none, some, List,
  [], ◌∷◌, ◌++◌, map, Text, codes, ◌==◌, list_eq, nat_eq, option_eq, contains, leb, is_empty,
  is_some, if◌then◌else◌, is_lower, is_digit, lookup,
}
use ss_common.Plan.{Task, field_of, dependency_references}
use ss_common.Plan.Cycles.{cycle_findings}
use ss_common.Plan.Summary.{identifier_of}

pub data PlanFinding : Type 0 where
  listed_twice no_evaluation no_link not_served : (capability : Text) → PlanFinding
  bad_status : (capability status : Text) → PlanFinding
  duplicated no_lane no_group no_serves : (task : Text) → PlanFinding
  unregistered : (task serves : Text) → PlanFinding
  misplaced : (task serves group : Text) → PlanFinding
  missing_field : (task field : Text) → PlanFinding
  no_human_step human_step_in_agent_lane : (task : Text) → PlanFinding
  bad_agent_status : (task status section : Text) → PlanFinding
  depends_on_itself : (task : Text) → PlanFinding
  unknown_dependency : (task reference : Text) → PlanFinding
  cycle : List Text → PlanFinding

abbrev pub agent_section : Text
agent_section = codes "Agent Implementation Tasks"

abbrev pub human_section : Text
human_section = codes "Human-Assisted Tasks"

abbrev pub human_step : Text
human_step = codes "human step"

abbrev pub plan_sections : List Text
plan_sections = agent_section ∷ human_section ∷ []

abbrev pub agent_statuses : List Text
agent_statuses = codes "CLEAR" ∷ codes "RUN NEEDED" ∷ []

abbrev pub human_statuses : List Text
human_statuses = codes "BLOCKED BY HUMAN" ∷ codes "HUMAN-GATED" ∷ []

abbrev pub required_fields : List Text
required_fields =
    codes "serves"
    ∷ codes "agent status"
    ∷ codes "dependencies"
    ∷ codes "user-visible outcome"
    ∷ codes "scope boundary"
    ∷ codes "data and artifact paths"
    ∷ codes "execution path"
    ∷ codes "acceptance gates"
    ∷ codes "documentation target"
    ∷ []

abbrev pub finding_if : Bool → PlanFinding → List PlanFinding
finding_if b f = if b then f ∷ [] else []

-- `(?:\s|$)`.
abbrev ends_word : Text → Bool
ends_word [] = true
ends_word (c ∷ s) = is_space c

-- The rest of `_SERVES` after the opening backtick and some characters of the id.
unfoldable pub serves_rest : Text → Text → Option Text
serves_rest id [] = none
serves_rest id (c ∷ s) =
    let rest = serves_rest (id ++ c ∷ []) s in
    if is_lower c || is_digit c || c == b'-'
    then rest
    else if c == b'`' && not (is_empty id) && ends_word s
    then some id
    else none

-- `Task.serves`.
unfoldable pub serves : Task → Option Text
serves t = elim (field_of (codes "serves") t) [
  | [] ↦ none
  | c ∷ s ↦ if c == b'`' then serves_rest [] s else none
]

-- `Task.agent_status`.
unfoldable pub agent_status : (Text → Text) → Task → Option Text
agent_status upper t =
    let value = field_of (codes "agent status") t in
    if is_empty value then none else some (upper (strip value))

-- `_task_identity_findings`, for the identifiers of the tasks before.
unfoldable pub serves_findings : List Text → Task → Option Text → List PlanFinding
serves_findings known t none = no_serves t.identifier ∷ []
serves_findings known t (some id) =
    if not (contains known id)
    then unregistered t.identifier id ∷ []
    else finding_if (not (t.group == id)) (misplaced t.identifier id t.group)

unfoldable pub identity_findings : List Text → List Text → Task → List PlanFinding
identity_findings known identifiers t =
    finding_if (contains identifiers t.identifier) (duplicated t.identifier)
    ++ (finding_if (not (contains plan_sections t.section)) (no_lane t.identifier)
        ++ (finding_if (is_empty t.group) (no_group t.identifier)
            ++ serves_findings known t (serves t)))

unfoldable pub field_findings : Task → List Text → List PlanFinding
field_findings t [] = []
field_findings t (f ∷ fs) =
    finding_if (is_empty (field_of f t)) (missing_field t.identifier f) ++ field_findings t fs

-- `_task_metadata_findings`.
unfoldable pub metadata_findings : Task → List PlanFinding
metadata_findings t =
    field_findings t required_fields
    ++ (finding_if (t.section == human_section && is_empty (field_of human_step t))
          (no_human_step t.identifier)
        ++ finding_if (t.section == agent_section && is_some (lookup human_step t.fields))
            (human_step_in_agent_lane t.identifier))

-- `allowed_by_section.get(task.section, ())`.
abbrev pub allowed_statuses : Text → List Text
allowed_statuses section =
    if section == agent_section
    then agent_statuses
    else if section == human_section
    then human_statuses
    else []

-- `_task_status_findings`.
unfoldable pub status_findings : Task → Option Text → List PlanFinding
status_findings t none = []
status_findings t (some status) =
    finding_if (not (contains (allowed_statuses t.section) status))
      (bad_agent_status t.identifier status t.section)

-- The loop of `_task_findings`.
unfoldable pub task_findings : (Text → Text) → List Text → List Text → List Task → List PlanFinding
task_findings upper known identifiers [] = []
task_findings upper known identifiers (t ∷ ts) =
    identity_findings known identifiers t
    ++ (metadata_findings t
        ++ (status_findings t (agent_status upper t)
            ++ task_findings upper known (t.identifier ∷ identifiers) ts))

-- The inner loop of `_dependency_findings`.
unfoldable pub reference_findings : List Text → List Text → Task → List Text → List PlanFinding
reference_findings open_ids recorded t [] = []
reference_findings open_ids recorded t (r ∷ rs) =
    let rest = reference_findings open_ids recorded t rs in
    if r == t.identifier
    then depends_on_itself t.identifier ∷ rest
    else if not (contains open_ids r) && not (contains recorded r)
    then unknown_dependency t.identifier r ∷ rest
    else rest

unfoldable pub references_findings : List Text → List Text → List Task → List PlanFinding
references_findings open_ids recorded [] = []
references_findings open_ids recorded (t ∷ ts) =
    reference_findings open_ids recorded t (dependency_references t)
    ++ references_findings open_ids recorded ts

abbrev with_cycles : List PlanFinding → Option (List (List Text)) → Option (List PlanFinding)
with_cycles findings none = none
with_cycles findings (some cycles) = some (findings ++ map cycle cycles)

-- `_dependency_findings`; none where the search of cycles runs out of fuel.
unfoldable pub dependency_findings : (ℕ → Bool) → List Task → List Text → Option (List PlanFinding)
dependency_findings is_word tasks recorded =
    with_cycles (references_findings (map identifier_of tasks) recorded tasks)
      (cycle_findings is_word tasks)
