-- ===== src/Plan/Cycles/Visit.antt =====
-- What one visit of the search does to its state.
use ss_common.Prelude.{
  ℕ, ◌≡◌, ◌⊎◌, inl, inr, ◌≤◌, ◌<◌, ◌+◌, refl, ap, true, false, Option, none, some, List, [], ◌∷◌,
  ◌++◌, Text, list_eq, nat_eq, ==_iff, contains, length, if◌then◌else◌, is_some, Dict, keys, lookup,
  insert, lookup-insert, append-eq-nil, arith, Bool-cases,
}
use ss_common.Plan.Cycles.{
  Graph, dependencies, Mark, on_path, explored, Search, skip, judge, from_first, Visitor, round,
}
use ss_common.Plan.Cycles.Walks.{Edge, Schedulable, Reaches, further, AllSchedulable, no_return}

-- The tasks without a mark.
abbrev pub fresh : List Text → Dict Text Mark → ℕ
fresh [] m = 0
fresh (k ∷ ks) m = (if is_some (lookup k m) then 0 else 1) + fresh ks m

pub fresh_bound : (ks : List Text) (m : Dict Text Mark) → fresh ks m ≤ length ks
fresh_bound [] m = omega arith
fresh_bound (k ∷ ks) m = ground (arith, fresh_bound ks m)

pub fresh-insert_le :
    (ks : List Text) (x : Text) (v : Mark) (m : Dict Text Mark)
    → fresh ks (insert x v m) ≤ fresh ks m
fresh-insert_le [] x v m = omega arith
fresh-insert_le (k ∷ ks) x v m = ground (arith, fresh-insert_le ks x v m, lookup-insert k x v m)

pub fresh-insert_lt :
    (ks : List Text) (x : Text) (v : Mark) (m : Dict Text Mark)
    → contains ks x ≡ true
    → lookup x m ≡ none
    → fresh ks (insert x v m) < fresh ks m
fresh-insert_lt [] x v m h n = cc
fresh-insert_lt (k ∷ ks) x v m h n = ground (
  arith,
  fresh-insert_lt ks x v m,
  fresh-insert_le ks x v m,
  lookup-insert k x v m,
  ==_iff k x,
  ==_iff x k,
)

pub lookup-insert_self :
    (x : Text) (v : Mark) (m : Dict Text Mark) → lookup x (insert x v m) ≡ some v
lookup-insert_self x v m = ground (arith, lookup-insert x x v m, ==_iff x x)

pub lookup-insert_cases :
    (x y : Text) (v w : Mark) (m : Dict Text Mark)
    → lookup x (insert y v m) ≡ some w
    → ((x ≡ y) × (v ≡ w)) ⊎ (lookup x m ≡ some w)
lookup-insert_cases x y v w m h = ground (arith, lookup-insert x y v m, ==_iff x y)

module _ (g : Graph) where
  -- Every explored task can be scheduled, as long as no cycle is reported.
  abbrev pub Explored : Search → Type 0
  Explored s = s.findings ≡ [] → (x : Text) → lookup x s.state ≡ some explored → Schedulable g x

  -- The current path ends at the task.
  abbrev pub PathTo : Search → Text → Type 0
  PathTo s node = (x : Text) → lookup x s.state ≡ some on_path → Reaches g x node

  -- What holds between the search before and after some steps.
  pub record After (s s' : Search) : Type 0 where
    pub path_kept : (x : Text) → lookup x s'.state ≡ some on_path → lookup x s.state ≡ some on_path
    pub explored_kept :
        (x : Text) → lookup x s.state ≡ some explored → lookup x s'.state ≡ some explored
    pub fresh_kept : fresh (keys g) s'.state ≤ fresh (keys g) s.state
    pub clean_before : s'.findings ≡ [] → s.findings ≡ []
    pub sound : AllSchedulable g → s.findings ≡ [] → s'.findings ≡ []
    pub explored_ok : Explored s → Explored s'

  pub After-refl : (s : Search) → After s s
  After-refl s = record {
    path_kept = λ x h. h;
    explored_kept = λ x h. h;
    fresh_kept = omega arith;
    clean_before = λ h. h;
    sound = λ ok h. h;
    explored_ok = λ h. h;
  }

  pub After-trans : {s t u : Search} → After s t → After t u → After s u
  After-trans a b = record {
    path_kept = λ x h. a.path_kept x (b.path_kept x h);
    explored_kept = λ x h. b.explored_kept x (a.explored_kept x h);
    fresh_kept = omega (arith, a.fresh_kept, b.fresh_kept);
    clean_before = λ h. a.clean_before (b.clean_before h);
    sound = λ ok h. b.sound ok (a.sound ok h);
    explored_ok = λ h. b.explored_ok (a.explored_ok h);
  }

  -- A visitor that comes back, with the task explored, where the marks left are within the fuel.
  abbrev pub Visits : ℕ → Visitor → Type 0
  Visits n visitor =
      (node : Text) (path : List Text) (s : Search)
      → fresh (keys g) s.state ≤ n
      → contains (keys g) node ≡ true
      → lookup node s.state ≡ none
      → PathTo s node
      → (s' : Search) × (visitor node path s ≡ some s')
        × After s s'
        × (lookup node s'.state ≡ some explored)

  judge-skip : (s : Search) (d : Text) → contains (keys g) d ≡ false → judge g s d ≡ skip
  unfolding judge
  judge-skip s d h = rw h

  -- Without a new finding, the dependency is out of the plan or explored.
  abbrev pub Dealt : Text → Search → Type 0
  Dealt d s' = contains (keys g) d ≡ true → s'.findings ≡ [] → lookup d s'.state ≡ some explored

  add_finding-After :
      (s : Search) (c : List Text)
      → (AllSchedulable g → ⊥)
      → After s (record s { findings = s.findings ++ c ∷ [] })
  add_finding-After s c cycle = record {
    path_kept = λ x h. h;
    explored_kept = λ x h. h;
    fresh_kept = omega arith;
    clean_before = λ h. (append-eq-nil s.findings (c ∷ []) h).0;
    sound = λ ok h. elim (cycle ok) [ ];
    explored_ok = λ ok h. ok (append-eq-nil s.findings (c ∷ []) h).0;
  }

  round-open :
      (n : ℕ) (visitor : Visitor)
      → Visits n visitor
      → (node d : Text) (path : List Text) (s : Search) (m : Option Mark) → lookup d s.state ≡ m
      → Edge g node d
      → fresh (keys g) s.state ≤ n
      → PathTo s node
      → (s' : Search) × (round visitor path d s (judge g s d) ≡ some s') × After s s' × Dealt d s'
  unfolding judge
  round-open n visitor v node d path s none e edge few to =
      rw (edge.1, e)
        (let (s', r, a, done) =
            v d (path ++ d ∷ []) s few edge.1 e (λ x h. further (to x h) edge) in
          (s', r, a, λ _ _. done))
  round-open n visitor v node d path s (some explored) e edge few to =
      rw (edge.1, e) (s, refl, After-refl s, λ _ _. e)
  round-open n visitor v node d path s (some on_path) e edge few to =
      rw (edge.1, e)
        (
          _,
          refl,
          add_finding-After s (from_first d path ++ d ∷ [])
              (λ ok. no_return g (ok d edge.1) (to d e) edge),
          λ _ h. elim (some_cons (append-eq-nil s.findings _ h).1) [ ],
        )
    where
      some_cons : {x : List Text} {xs : List (List Text)} → (x ∷ xs) ≡ [] → ⊥
      some_cons h = cc

  pub round_lem :
      (n : ℕ) (visitor : Visitor)
      → Visits n visitor
      → (node d : Text) (path : List Text) (s : Search) → contains (dependencies g node) d ≡ true
      → fresh (keys g) s.state ≤ n
      → PathTo s node
      → (s' : Search) × (round visitor path d s (judge g s d) ≡ some s') × After s s' × Dealt d s'
  round_lem n visitor v node d path s dep few to = elim (Bool-cases (contains (keys g) d)) [
    | inl open_task ↦
        round-open n visitor v node d path s (lookup d s.state) refl (dep, open_task) few to
    | inr other ↦ (s, ap (round visitor path d s) (judge-skip s d other), After-refl s, λ h. cc)
  ]
