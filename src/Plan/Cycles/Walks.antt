-- ===== src/Plan/Cycles/Walks.antt =====
-- Walks along start dependencies, and the tasks that can be scheduled.
use ss_common.Prelude.{◌≡◌, true, Text, list_eq, nat_eq, contains, keys}
use ss_common.Plan.Cycles.{Graph, dependencies}

module _ (g : Graph) where
  -- The second task is a start dependency of the first, and in the plan.
  abbrev pub Edge : Text → Text → Type 0
  Edge a d = (contains (dependencies g a) d ≡ true) × (contains (keys g) d ≡ true)

  -- A task can start once every open task that it waits on can be finished.
  pub data Schedulable : Text → Type 0 where
    ready : {a : Text} → ((d : Text) → Edge a d → Schedulable d) → Schedulable a

  pub data Reaches : Text → Text → Type 0 where
    here : {a : Text} → Reaches a a
    further : {a b c : Text} → Reaches a b → Edge b c → Reaches a c

  abbrev pub AllSchedulable : Type 0
  AllSchedulable = (a : Text) → contains (keys g) a ≡ true → Schedulable a

  go_on : {a b c : Text} → Reaches a b → Edge b c → (w : Text) × Edge a w × Reaches w c
  go_on {c = c} here e = (c, e, here)
  go_on (further r e') e = let (w, f, q) = go_on r e' in (w, f, further q e)

  acyclic : {a : Text} → Schedulable a → (w : Text) → Edge a w → Reaches w a → ⊥
  acyclic (ready f) w e r = let (v, e', r') = go_on r e in acyclic (f w e) v e' r'

  pub no_return : {a b : Text} → Schedulable a → Reaches a b → Edge b a → ⊥
  no_return ok r e = let (v, e', r') = go_on r e in acyclic ok v e' r'
