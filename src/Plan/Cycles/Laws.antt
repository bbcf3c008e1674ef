-- ===== src/Plan/Cycles/Laws.antt =====
-- The search comes back, and finds no cycle just where every task can be scheduled.
use ss_common.Prelude.{
  ℕ, zero, suc, ◌≡◌, ◌≢◌, inl, inr, ◌↔◌, ◌≤◌, ◌<◌, refl, ap, Bool, true, Option, none, some, List,
  [], ◌∷◌, Text, ◌==◌, list_eq, nat_eq, ==_iff, contains, length, is_some, and_then-some, keys,
  lookup, lookup-nil, lookup-insert, arith, Bool-cases,
}
use ss_common.Plan.Cycles.{
  Graph, dependencies, Mark, on_path, explored, Search, marked, Visitor, visit_each, leave, visit,
  root, visit_roots, search, graph_from, cycle_findings,
}
use ss_common.Plan.{Task}
use ss_common.Plan.Cycles.Walks.{ready, here, AllSchedulable}
use ss_common.Plan.Cycles.Visit.{
  fresh, fresh_bound, fresh-insert_le, fresh-insert_lt, lookup-insert_self, lookup-insert_cases,
  Explored, PathTo, After, After-refl, After-trans, Visits, Dealt, round_lem,
}

module _ (g : Graph) where
  visit_each_lem :
      (n : ℕ) (visitor : Visitor)
      → Visits g n visitor
      → (node : Text) (path ds : List Text) (s : Search)
      → ((d : Text) → contains ds d ≡ true → contains (dependencies g node) d ≡ true)
      → fresh (keys g) s.state ≤ n
      → PathTo g s node
      → (s' : Search) × (visit_each visitor g path ds s ≡ some s')
        × After g s s'
        × ((d : Text) → contains ds d ≡ true → Dealt g d s')
  unfolding visit_each
  visit_each_lem n visitor v node path [] s deps few to = (s, refl, After-refl g s, λ d h. cc)
  visit_each_lem n visitor v node path (d ∷ ds) s deps few to =
      let (t, r, a, dealt) =
        round_lem g n visitor v node d path s (deps d (ground (arith, ==_iff d d))) few to in
      let (u, q, b, rest) =
        visit_each_lem n visitor v node path ds t (λ x h. deps x (ground arith))
          (omega (arith, a.fresh_kept, few)) (λ x h. to x (a.path_kept x h)) in
      (
        u,
        and_then-some _ _ t _ r q,
        After-trans g a b,
        λ x h open_task clean. elim (Bool-cases (x == d)) [
          | inl same ↦ b.explored_kept x (
              rw ((==_iff x d).0 same) (dealt (subst_open x same open_task) (b.clean_before clean)))
          | inr other ↦ rest x (ground arith) open_task clean
        ],
      )
    where
      subst_open :
          (x : Text) → (x == d) ≡ true → contains (keys g) x ≡ true → contains (keys g) d ≡ true
      subst_open x same h = ground (arith, ==_iff x d)

  enter-PathTo :
      (node : Text) (s : Search) → PathTo g s node → PathTo g (marked node on_path s) node
  enter-PathTo node s to x h = elim (lookup-insert_cases x node on_path on_path s.state h) [
    | inl (same, _) ↦ rw same here
    | inr before ↦ to x before
  ]

  -- A visit as a whole, from what its loop does.
  leave-After :
      (node : Text) (s t : Search)
      → contains (keys g) node ≡ true
      → lookup node s.state ≡ none
      → After g (marked node on_path s) t
      → ((d : Text) → contains (dependencies g node) d ≡ true → Dealt g d t)
      → After g s (marked node explored t)
  leave-After node s t open_task new a dealt = record {
    path_kept = λ x h. ground (
      arith,
      lookup-insert x node explored t.state,
      lookup-insert x node on_path s.state,
      a.path_kept x,
    );
    explored_kept = λ x h. ground (
      arith,
      lookup-insert x node explored t.state,
      lookup-insert x node on_path s.state,
      a.explored_kept x,
      ==_iff x node,
    );
    fresh_kept = ground (
      arith,
      a.fresh_kept,
      fresh-insert_le (keys g) node explored t.state,
      fresh-insert_le (keys g) node on_path s.state,
    );
    clean_before = a.clean_before;
    sound = a.sound;
    explored_ok = λ ok clean x h. elim (lookup-insert_cases x node explored explored t.state h) [
      | inl (same, _) ↦ rw same (ready (λ d e. loop_ok ok clean d (dealt d e.0 e.1 clean)))
      | inr before ↦ loop_ok ok clean x before
    ];
  }
    where
      entered : Explored g s → Explored g (marked node on_path s)
      entered ok clean x h = elim (lookup-insert_cases x node on_path explored s.state h) [
        | inl (_, wrong) ↦ cc
        | inr before ↦ ok clean x before
      ]

      loop_ok : Explored g s → Explored g t
      loop_ok ok = a.explored_ok (entered ok)

  visit_lem : (n : ℕ) → Visits g n (visit g n)
  unfolding visit
  visit_lem zero node path s few open_task new to =
      elim (positive (fresh-insert_lt (keys g) node on_path s.state open_task new) few) [ ]
    where
      positive : {a b : ℕ} → a < b → b ≤ 0 → ⊥
      positive h k = omega arith
  visit_lem (suc n) node path s few open_task new to =
      let (t, r, a, dealt) =
        visit_each_lem n (visit g n) (visit_lem n) node path (dependencies g node)
          (marked node on_path s) (λ d h. h)
          (omega (arith, fresh-insert_lt (keys g) node on_path s.state open_task new, few))
          (enter-PathTo node s to) in
      (
        marked node explored t,
        ap (leave node) r,
        leave-After node s t open_task new a dealt,
        lookup-insert_self node explored t.state,
      )

  abbrev NoPath : Search → Type 0
  NoPath s = (x : Text) → lookup x s.state ≢ some on_path

  root_lem :
      (id : Text) (s : Search)
      → contains (keys g) id ≡ true
      → NoPath s
      → (s' : Search) × (root g id s (is_some (lookup id s.state)) ≡ some s')
        × After g s s'
        × (lookup id s'.state ≡ some explored)
  root_lem id s open_task none_on = from (lookup id s.state) refl
    where
      from :
          (m : Option Mark)
          → lookup id s.state ≡ m
          → (s' : Search) × (root g id s (is_some (lookup id s.state)) ≡ some s')
            × After g s s'
            × (lookup id s'.state ≡ some explored)
      from none e = rw e (
          visit_lem (length (keys g)) id (id ∷ []) s (fresh_bound (keys g) s.state) open_task e
            (λ x h. elim (none_on x h) [ ]))
      from (some explored) e = rw e (s, refl, After-refl g s, e)
      from (some on_path) e = elim (none_on id e) [ ]

  visit_roots_lem :
      (ids : List Text) (s : Search)
      → ((d : Text) → contains ids d ≡ true → contains (keys g) d ≡ true)
      → NoPath s
      → (s' : Search) × (visit_roots g ids s ≡ some s')
        × After g s s'
        × ((d : Text) → contains ids d ≡ true → lookup d s'.state ≡ some explored)
  unfolding visit_roots
  visit_roots_lem [] s sub none_on = (s, refl, After-refl g s, λ d h. cc)
  visit_roots_lem (id ∷ ids) s sub none_on =
      let (t, r, a, done) = root_lem id s (sub id (ground (arith, ==_iff id id))) none_on in
      let (u, q, b, rest) =
        visit_roots_lem ids t (λ d h. sub d (ground arith)) (λ x h. none_on x (a.path_kept x h)) in
      (
        u,
        and_then-some _ _ t _ r q,
        After-trans g a b,
        λ d h. elim (Bool-cases (d == id)) [
          | inl same ↦ b.explored_kept d (rw ((==_iff d id).0 same) done)
          | inr other ↦ rest d (ground arith)
        ],
      )

  search_lem : (fs : List (List Text)) × (search g ≡ some fs) × ((fs ≡ []) ↔ AllSchedulable g)
  unfolding search
  search_lem =
      let (s, r, a, done) = visit_roots_lem (keys g) start (λ d h. h) none_on in
      (
        s.findings,
        and_then-some _ _ s _ r refl,
        (λ clean x h. a.explored_ok untouched clean x (done x h), λ ok. a.sound ok refl),
      )
    where
      start : Search
      start = record { state = []; findings = [] }

      no_mark : (x : Text) → lookup x start.state ≡ none
      no_mark x = lookup-nil x

      none_on : NoPath start
      none_on x h = ground (arith, no_mark x)

      untouched : Explored g start
      untouched clean x h = ground (arith, no_mark x)

-- The search of the plan's tasks comes back, and it reports no cycle just where every task can be
-- scheduled: its start dependencies in the plan can be, and so on.
pub cycle_findings_iff :
    (is_word : ℕ → Bool) (tasks : List Task)
    → (fs : List (List Text)) × (cycle_findings is_word tasks ≡ some fs)
      × ((fs ≡ []) ↔ AllSchedulable (graph_from is_word [] tasks))
unfolding cycle_findings
cycle_findings_iff is_word tasks = search_lem (graph_from is_word [] tasks)
