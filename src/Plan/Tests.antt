-- ===== src/Plan/Tests.antt =====
-- Runs on small plans.
use ss_common.Prelude.{
  ℕ, ◌≡◌, ◌≢◌, ◌↔◌, refl, Bool, false, some, List, [], ◌∷◌, Text, codes, ◌==◌, list_eq, nat_eq,
  ◌||◌, is_lower, is_digit, lookup, insert, split,
}
use ss_common.Plan.{
  Task, references, scan_all, scan, is_reference, unique, blocking, begins, start_dependencies,
}
use ss_common.Plan.Cycles.{
  cycle_findings, search, visit_roots, visit, visit_each, judge, from_first, graph_from,
}
use ss_common.Plan.Cycles.Walks.{AllSchedulable}
use ss_common.Plan.Cycles.Laws.{cycle_findings_iff}
use ss_common.Plan.Summary.{eligible}
use ss_common.Plan.Summary.Progress.{eligible-some}

abbrev ascii_word : ℕ → Bool
ascii_word c = is_lower c || is_digit c || c == b'_'

abbrev task : Text → Text → Task
task id deps = record {
  identifier = id;
  section = codes "Agent Implementation Tasks";
  group = codes "core";
  optional = false;
  fields = (codes "dependencies", deps) ∷ [];
}

abbrev plan : List Task
plan =
    task (codes "a-b") (codes "`c-d`, `x`; Blocks: `a-b`")
    ∷ task (codes "c-d") (codes "none. optional: `a-b`")
    ∷ []

abbrev looped : List Task
looped = task (codes "a-b") (codes "`c-d`") ∷ task (codes "c-d") (codes "on `a-b`") ∷ []

plan-clean : cycle_findings ascii_word plan ≡ some []
unfolding cycle_findings search visit_roots visit visit_each judge from_first graph_from
    start_dependencies references scan_all scan is_reference unique blocking begins lookup insert
    split ◌==◌ list_eq nat_eq
plan-clean = refl

looped-cycle :
    cycle_findings ascii_word looped ≡ some ((codes "a-b" ∷ codes "c-d" ∷ codes "a-b" ∷ []) ∷ [])
unfolding cycle_findings search visit_roots visit visit_each judge from_first graph_from
    start_dependencies references scan_all scan is_reference unique blocking begins lookup insert
    split ◌==◌ list_eq nat_eq
looped-cycle = refl

cycle_findings_iff_example :
    (fs : List (List Text)) × (cycle_findings ascii_word looped ≡ some fs)
    × ((fs ≡ []) ↔ AllSchedulable (graph_from ascii_word [] looped))
cycle_findings_iff_example = cycle_findings_iff ascii_word looped

eligible-some_example : eligible ascii_word plan ≢ []
eligible-some_example =
    eligible-some ascii_word (task (codes "a-b") (codes "`c-d`, `x`; Blocks: `a-b`"))
      (task (codes "c-d") (codes "none. optional: `a-b`") ∷ []) plan-clean
