-- ===== src/Plan/Integrity/Tests.antt =====
-- Runs of the checks on a small plan.
use ss_common.Prelude.{
  is_space, lstrip, rstrip, strip, option_eq, ℕ, ◌≡◌, ◌↔◌, refl, Bool, false, ◌||◌, some, List, [],
  ◌∷◌, map, Text, codes, ◌==◌, list_eq, nat_eq, Distinct, All, is_lower, is_digit, is_upper,
  if◌then◌else◌, ◌-◌, lookup,
}
use ss_common.Plan.{Task, dependency_references}
use ss_common.Plan.Cycles.{graph_from}
use ss_common.Plan.Cycles.Walks.{AllSchedulable}
use ss_common.Plan.Summary.{identifier_of}
use ss_common.Plan.Integrity.{
  PlanFinding, agent_section, agent_status, serves, serves_rest, task_findings, dependency_findings,
  identity_findings, serves_findings, field_findings, metadata_findings, status_findings,
}
use ss_common.Plan.Integrity.Registry.{
  Capability, capability_id, IsAccounted, registry_findings, registry_findings_iff,
  capabilities_findings, capability_findings, has_link, link_label, link_target,
}
use ss_common.Plan.Integrity.Tasks.{IsPlanned, task_findings_iff}
use ss_common.Plan.Integrity.Dependencies.{IsKnown, dependency_findings_iff}

abbrev upper : Text → Text
upper s = map (λ c. if is_lower c then c - 32 else c) s

abbrev ascii_word : ℕ → Bool
ascii_word c = is_lower c || is_upper c || is_digit c || c == b'_'

abbrev good : Task
good = record {
  identifier = codes "first-task";
  section = agent_section;
  group = codes "core";
  optional = false;
  fields =
      (codes "serves", codes "`core` first")
      ∷ (codes "agent status", codes " clear ")
      ∷ (codes "dependencies", codes "`other-task`, recorded")
      ∷ (codes "user-visible outcome", codes "x")
      ∷ (codes "scope boundary", codes "x")
      ∷ (codes "data and artifact paths", codes "x")
      ∷ (codes "execution path", codes "x")
      ∷ (codes "acceptance gates", codes "x")
      ∷ (codes "documentation target", codes "x")
      ∷ [];
}

good-clean : task_findings upper (codes "core" ∷ []) [] (good ∷ []) ≡ []
unfolding task_findings identity_findings serves_findings field_findings metadata_findings
    status_findings agent_status serves serves_rest is_space lstrip rstrip strip lookup ◌==◌ list_eq
    nat_eq
good-clean = refl

task_findings_iff_example : (task_findings upper (codes "core" ∷ []) [] (good ∷ []) ≡ []) ↔ (
    Distinct (map identifier_of (good ∷ []))
    × All (IsPlanned upper (codes "core" ∷ [])) (good ∷ []))
task_findings_iff_example = task_findings_iff upper (codes "core" ∷ []) (good ∷ [])

dependency_findings_iff_example :
    (fs : List PlanFinding) × (dependency_findings ascii_word (good ∷ []) (codes "other-task" ∷ [])
      ≡ some fs)
    × ((fs ≡ []) ↔ (
        All
          (λ t.
            All
              (IsKnown (map identifier_of (good ∷ [])) (codes "other-task" ∷ []) t)
              (dependency_references t))
          (good ∷ [])
        × AllSchedulable (graph_from ascii_word [] (good ∷ []))))
dependency_findings_iff_example =
    dependency_findings_iff ascii_word (good ∷ []) (codes "other-task" ∷ [])

abbrev core : Capability
core = record {
  identifier = codes "core";
  status = codes "shipped";
  evaluation = codes "unit tests";
  implementation = codes "see [the guide](docs/core.md)";
}

core-clean : registry_findings (core ∷ []) (good ∷ []) ≡ []
unfolding registry_findings capabilities_findings capability_findings has_link link_label
    link_target serves serves_rest is_space lookup ◌==◌ list_eq nat_eq option_eq
core-clean = refl

registry_findings_iff_example : (registry_findings (core ∷ []) (good ∷ []) ≡ []) ↔ (
    Distinct (map capability_id (core ∷ []))
    × All (IsAccounted (map serves (good ∷ []))) (core ∷ []))
registry_findings_iff_example = registry_findings_iff (core ∷ []) (good ∷ [])
