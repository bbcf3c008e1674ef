-- ===== src/Plan/Integrity/Dependencies.antt =====
-- What the dependencies of the plan's tasks are like where there is no finding.
use ss_common.Prelude.{
  ℕ, ◌≡◌, ◌≢◌, ◌↔◌, refl, Bool, true, ◌||◌, some, List, [], ◌∷◌, ◌++◌, map, Text, list_eq, nat_eq,
  ==_iff, contains, All, arith,
}
use ss_common.Plan.{Task, dependency_references}
use ss_common.Plan.Cycles.{graph_from}
use ss_common.Plan.Cycles.Walks.{AllSchedulable}
use ss_common.Plan.Cycles.Laws.{cycle_findings_iff}
use ss_common.Plan.Summary.{identifier_of}
use ss_common.Plan.Integrity.{
  PlanFinding, reference_findings, references_findings, dependency_findings,
}
use ss_common.Plan.Integrity.Tasks.{both}

-- The reference names another task, in the plan or recorded as finished.
abbrev pub IsKnown : List Text → List Text → Task → Text → Type 0
IsKnown open_ids recorded t r =
    (r ≢ t.identifier) × ((contains open_ids r || contains recorded r) ≡ true)

reference_findings-nil :
    (open_ids recorded : List Text) (t : Task) (rs : List Text)
    → (reference_findings open_ids recorded t rs ≡ []) ↔ All (IsKnown open_ids recorded t) rs
unfolding reference_findings
reference_findings-nil open_ids recorded t [] = (λ h. tt, λ h. refl)
reference_findings-nil open_ids recorded t (r ∷ rs) =
    let (there, back) = reference_findings-nil open_ids recorded t rs in
    (
      λ h. (
        ((λ e. ground (arith, ==_iff r t.identifier)), ground (arith, ==_iff r t.identifier)),
        there (ground (arith, ==_iff r t.identifier)),
      ),
      λ h. ground (arith, ==_iff r t.identifier, h.0.0, h.0.1, back h.1),
    )

references_findings-nil :
    (open_ids recorded : List Text) (ts : List Task)
    → (references_findings open_ids recorded ts ≡ [])
      ↔ All (λ t. All (IsKnown open_ids recorded t) (dependency_references t)) ts
unfolding references_findings
references_findings-nil open_ids recorded [] = (λ h. tt, λ h. refl)
references_findings-nil open_ids recorded (t ∷ ts) =
    both _ _ (reference_findings-nil open_ids recorded t (dependency_references t))
      (references_findings-nil open_ids recorded ts)

map_cycle-nil : (cycles : List (List Text)) → (map PlanFinding.cycle cycles ≡ []) ↔ (cycles ≡ [])
map_cycle-nil [] = (λ h. refl, λ h. refl)
map_cycle-nil (c ∷ cs) = (λ h. cc, λ h. cc)

-- The check of the dependencies comes back, and it has no finding just where every reference of a
-- task names another task that is in the plan or recorded, and every task can be scheduled.
pub dependency_findings_iff :
    (is_word : ℕ → Bool) (tasks : List Task) (recorded : List Text)
    → (fs : List PlanFinding) × (dependency_findings is_word tasks recorded ≡ some fs)
      × ((fs ≡ []) ↔ (
          All
            (λ t. All (IsKnown (map identifier_of tasks) recorded t) (dependency_references t))
            tasks
          × AllSchedulable (graph_from is_word [] tasks)))
unfolding dependency_findings
dependency_findings_iff is_word tasks recorded =
    let (cycles, r, (there, back)) = cycle_findings_iff is_word tasks in
    (
      references_findings (map identifier_of tasks) recorded tasks ++ map PlanFinding.cycle cycles,
      rw r refl,
      both _ _ (references_findings-nil (map identifier_of tasks) recorded tasks)
          ((λ h. there ((map_cycle-nil cycles).0 h)), (λ h. (map_cycle-nil cycles).1 (back h))),
    )
