-- ===== src/Plan/Summary.antt =====
-- src/ss_kit/quality/plan_summary.py: the tasks that can start now, and their order in a lane.
pub mod Progress
use ss_common.Prelude.{
  ℕ, Bool, true, false, List, [], ◌∷◌, map, Text, ◌==◌, list_eq, nat_eq, contains, if◌then◌else◌,
  is_empty,
}
use ss_common.Plan.{Task, start_dependencies}

unfoldable pub open_of : List Text → List Text → List Text
open_of open_ids [] = []
open_of open_ids (d ∷ ds) =
    let rest = open_of open_ids ds in if contains open_ids d then d ∷ rest else rest

-- `open_dependencies`.
unfoldable pub open_dependencies : (ℕ → Bool) → Task → List Text → List Text
open_dependencies is_word t open_ids = open_of open_ids (start_dependencies is_word t)

abbrev pub identifier_of : Task → Text
identifier_of t = t.identifier

-- The tasks of the list with no start dependency among the identifiers.
unfoldable pub without_open : (ℕ → Bool) → List Text → List Task → List Task
without_open is_word open_ids [] = []
without_open is_word open_ids (t ∷ ts) =
    let rest = without_open is_word open_ids ts in
    if is_empty (open_dependencies is_word t open_ids) then t ∷ rest else rest

-- `eligible` in `summary_lines`.
unfoldable pub eligible : (ℕ → Bool) → List Task → List Task
eligible is_word tasks = without_open is_word (map identifier_of tasks) tasks
