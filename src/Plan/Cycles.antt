-- ===== src/Plan/Cycles.antt =====
-- src/ss_kit/quality/plan_integrity.py: `_cycle_findings`, the depth first search for start
-- dependencies that form a cycle. `visit` takes fuel, one unit for each task that it may enter.
pub mod Walks
pub mod Visit
pub mod Laws
use ss_common.Prelude.{
  ℕ, zero, suc, Bool, true, false, Option, none, some, List, [], ◌∷◌, ◌++◌, Text, ◌==◌, list_eq,
  nat_eq, contains, length, if◌then◌else◌, is_some, and_then, Dict, keys, lookup, insert,
}
use ss_common.Plan.{Task, start_dependencies}

abbrev pub Graph : Type 0
Graph = Dict Text (List Text)

-- `{task.identifier: task.start_dependencies for task in tasks}`, added to a dictionary.
unfoldable pub graph_from : (ℕ → Bool) → Graph → List Task → Graph
graph_from is_word g [] = g
graph_from is_word g (t ∷ ts) =
    graph_from is_word (insert t.identifier (start_dependencies is_word t) g) ts

-- `graph.get(node, [])`.
abbrev pub dependencies : Graph → Text → List Text
dependencies g node = elim (lookup node g) [ none ↦ [] | some ds ↦ ds ]

-- The states 1 and 2.
pub data Mark : Type 0 where
  on_path explored : Mark

pub record Search : Type 0 where
  pub state : Dict Text Mark
  pub findings : List (List Text)

abbrev pub marked : Text → Mark → Search → Search
marked node m s = record s { state = insert node m s.state }

-- What the loop does with a dependency.
pub data Verdict : Type 0 where
  skip closes enter : Verdict

unfoldable pub judge : Graph → Search → Text → Verdict
judge g s d =
    if contains (keys g) d
    then elim (lookup d s.state) [ none ↦ enter | some on_path ↦ closes | some explored ↦ skip ]
    else skip

-- `path[path.index(d):]`
unfoldable pub from_first : Text → List Text → List Text
from_first d [] = []
from_first d (x ∷ xs) = let rest = from_first d xs in if x == d then x ∷ xs else rest

abbrev pub Visitor : Type 0
Visitor = Text → List Text → Search → Option Search

abbrev pub round : Visitor → List Text → Text → Search → Verdict → Option Search
round visitor path d s skip = some s
round visitor path d s closes =
    some (record s { findings = s.findings ++ (from_first d path ++ d ∷ []) ∷ [] })
round visitor path d s enter = visitor d (path ++ d ∷ []) s

-- The loop of `visit`, for the visitor of the recursive call.
unfoldable pub visit_each : Visitor → Graph → List Text → List Text → Search → Option Search
visit_each visitor g path [] s = some s
visit_each visitor g path (d ∷ ds) s =
    and_then (round visitor path d s (judge g s d)) (λ s'. visit_each visitor g path ds s')

abbrev pub leave : Text → Option Search → Option Search
leave node none = none
leave node (some s) = some (marked node explored s)

unfoldable pub visit : Graph → ℕ → Visitor
visit g zero node path s = none
visit g (suc n) node path s =
    leave node (visit_each (visit g n) g path (dependencies g node) (marked node on_path s))

abbrev pub root : Graph → Text → Search → Bool → Option Search
root g id s true = some s
root g id s false = visit g (length (keys g)) id (id ∷ []) s

unfoldable pub visit_roots : Graph → List Text → Search → Option Search
visit_roots g [] s = some s
visit_roots g (id ∷ ids) s =
    and_then (root g id s (is_some (lookup id s.state))) (λ s'. visit_roots g ids s')

-- The cycles that the search reports; none means that the fuel ran out.
unfoldable pub search : Graph → Option (List (List Text))
search g =
    and_then (visit_roots g (keys g) (record { state = []; findings = [] })) (λ s. some s.findings)

-- `_cycle_findings`.
unfoldable pub cycle_findings : (ℕ → Bool) → List Task → Option (List (List Text))
cycle_findings is_word tasks = search (graph_from is_word [] tasks)
