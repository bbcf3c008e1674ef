-- ===== src/Plan/Summary/Progress.antt =====
-- A plan without a cycle has a task to start with.
use ss_common.Prelude.{
  ℕ, ◌≡◌, ◌≢◌, subst, ◌∙◌, Bool, true, false, ◌||◌, some, List, [], ◌∷◌, map, Text, ◌==◌, list_eq,
  nat_eq, ==_iff, contains, is_empty, All, keys, lookup, insert, lookup-nil, lookup-insert,
  contains-keys, arith, Bool-cases, Option-cases, inl, inr,
}
use ss_common.Plan.{Task, start_dependencies}
use ss_common.Plan.Cycles.{Graph, graph_from, dependencies, cycle_findings}
use ss_common.Plan.Cycles.Walks.{Schedulable, ready}
use ss_common.Plan.Cycles.Laws.{cycle_findings_iff}
use ss_common.Plan.Summary.{open_of, open_dependencies, identifier_of, without_open, eligible}

module _ (is_word : ℕ → Bool) where
  -- The graph has a node for each task.
  keys-graph_from :
      (x : Text) (g : Graph) (ts : List Task)
      → contains (keys (graph_from is_word g ts)) x
        ≡ (contains (keys g) x || contains (map identifier_of ts) x)
  unfolding graph_from
  keys-graph_from x g [] = ground arith
  keys-graph_from x g (t ∷ ts) =
      let ds = start_dependencies is_word t in
      ground (
        arith,
        keys-graph_from x (insert t.identifier ds g) ts,
        contains-keys x (insert t.identifier ds g),
        contains-keys x g,
        lookup-insert x t.identifier ds g,
      )

  -- What holds of every task's dependencies holds of what the graph has for a node.
  lookup-graph_from :
      (P : List Text → Type 0) (x : Text) (ds : List Text) (g : Graph) (ts : List Task)
      → ((e : List Text) → lookup x g ≡ some e → P e)
      → All (λ t. P (start_dependencies is_word t)) ts
      → lookup x (graph_from is_word g ts) ≡ some ds
      → P ds
  unfolding graph_from
  lookup-graph_from P x ds g [] base every h = base ds h
  lookup-graph_from P x ds g (t ∷ ts) base every h =
      lookup-graph_from P x ds (insert t.identifier (start_dependencies is_word t) g) ts added
        every.1 h
    where
      added :
          (e : List Text)
          → lookup x (insert t.identifier (start_dependencies is_word t) g) ≡ some e
          → P e
      added e h = elim (Bool-cases (x == t.identifier)) [
        | inl same ↦
            subst P (ground (arith, lookup-insert x t.identifier (start_dependencies is_word t) g))
              every.0
        | inr other ↦
            base e (ground (arith, lookup-insert x t.identifier (start_dependencies is_word t) g))
      ]

  -- A task is waiting where some start dependency of it is open.
  abbrev Waiting : List Text → List Text → Type 0
  Waiting open_ids ds = (d : Text) × (contains ds d ≡ true) × (contains open_ids d ≡ true)

  open_of-Waiting :
      (open_ids ds : List Text) → is_empty (open_of open_ids ds) ≡ false → Waiting open_ids ds
  unfolding open_of
  open_of-Waiting open_ids [] h = cc
  open_of-Waiting open_ids (d ∷ ds) h = elim (Bool-cases (contains open_ids d)) [
    | inl now ↦ (d, ground (arith, ==_iff d d), now)
    | inr other ↦ let (e, m, o) = open_of-Waiting open_ids ds (ground arith) in (e, ground arith, o)
  ]

  without_open-nil :
      (open_ids : List Text) (ts : List Task)
      → without_open is_word open_ids ts ≡ []
      → All (λ t. Waiting open_ids (start_dependencies is_word t)) ts
  unfolding without_open open_dependencies
  without_open-nil open_ids [] h = tt
  without_open-nil open_ids (t ∷ ts) h = (
    open_of-Waiting open_ids (start_dependencies is_word t) (ground arith),
    without_open-nil open_ids ts (ground arith),
  )

  blocked :
      (g : Graph) (open_ids : List Text)
      → ((x : Text) → contains open_ids x ≡ true → contains (keys g) x ≡ true)
      → ((x : Text) → contains (keys g) x ≡ true → Waiting open_ids (dependencies g x))
      → {a : Text} → Schedulable g a
      → contains (keys g) a ≡ true
      → ⊥
  blocked g open_ids sub all_wait {a} (ready f) h =
      let (d, dep, now) = all_wait a h in
      blocked g open_ids sub all_wait (f d (dep, sub d now)) (sub d now)

  dependencies-Waiting :
      (open_ids : List Text) (ts : List Task) (x : Text)
      → All (λ t. Waiting open_ids (start_dependencies is_word t)) ts
      → contains (keys (graph_from is_word [] ts)) x ≡ true
      → Waiting open_ids (dependencies (graph_from is_word [] ts) x)
  dependencies-Waiting open_ids ts x every h =
      elim (Option-cases (lookup x (graph_from is_word [] ts))) [
        | inl absent ↦ ground (arith, contains-keys x (graph_from is_word [] ts))
        | inr (ds, e) ↦
            rw (e, dependencies)
              (lookup-graph_from (Waiting open_ids) x ds [] ts
                (λ e h. ground (arith, lookup-nil {V = List Text} x)) every e)
      ]

  -- Where the search of a plan with tasks reports no cycle, some task is eligible: none of its start
  -- dependencies is still in the plan.
  pub eligible-some :
      (t : Task) (ts : List Task)
      → cycle_findings is_word (t ∷ ts) ≡ some []
      → eligible is_word (t ∷ ts) ≢ []
  unfolding eligible
  eligible-some t ts clean none_left =
      let ids = map identifier_of (t ∷ ts) in
      let g = graph_from is_word [] (t ∷ ts) in
      let (fs, r, iff) = cycle_findings_iff is_word (t ∷ ts) in
      blocked g ids (λ x h. keys-graph_from x [] (t ∷ ts) ∙ h)
        (λ x h. dependencies-Waiting ids (t ∷ ts) x (without_open-nil ids (t ∷ ts) none_left) h)
        (iff.0 (ground arith) t.identifier first) first
    where
      first : contains (keys (graph_from is_word [] (t ∷ ts))) t.identifier ≡ true
      first =
          keys-graph_from t.identifier [] (t ∷ ts)
          ∙ ground (arith, ==_iff t.identifier t.identifier)
