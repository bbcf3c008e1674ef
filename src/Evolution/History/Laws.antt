-- ===== src/Evolution/History/Laws.antt =====
-- What a freeze keeps and what it records.
use ss_common.Prelude.{
  ◌≡◌, ◌≢◌, refl, sym, ap, ◌∙◌, true, Option, none, some, List, [], ◌∷◌, ◌++◌, map, Text, ◌==◌,
  list_eq, nat_eq, Dict, lookup, append-eq-nil, arith, Bool-cases, inl, inr, ◌⊎◌,
}
use mathlib.Core.List.{append_assoc, append-nil}
use ss_common.Evolution.Version.{Version, parse_version}
use ss_common.Evolution.Snapshot.{Snapshot}
use ss_common.Evolution.Classify.{no_change}
use ss_common.Evolution.Policy.{PolicyError}
use ss_common.Evolution.Policy.Laws.{version_policy_errors_iff, Precedes}
use ss_common.Evolution.Numbers.{NumberError, proto_number_errors}
use ss_common.Evolution.Numbers.Laws.{proto_number_errors-prefix}
use ss_common.Evolution.History.{
  EvolutionError, proto_number, step_errors, history_errors, latest, evaluate, comparable_equal,
  freeze_one, Baselines, freeze_all, written, freeze_baselines,
}
use ss_common.Evolution.History.Same.{classify_change-same, version-same}

irreflexive : (v : Version) → ¬ (Precedes v v)
irreflexive v h = ground arith

-- A step between snapshots that compare equal passes the policy.
step_errors-same : (a b : Snapshot) → comparable_equal a b ≡ true → step_errors a b ≡ []
unfolding step_errors
step_errors-same a b h =
    rw (classify_change-same a b h, version-same a b h)
      ((version_policy_errors_iff b.version b.version no_change).1
        (irreflexive (parse_version b.version)))

latest-snoc : (s : Snapshot) (ss : List Snapshot) (c : Snapshot) → latest s (ss ++ c ∷ []) ≡ c
latest-snoc s [] c = refl
latest-snoc s (t ∷ ts) c = latest-snoc t ts c

history_errors-snoc :
    (s : Snapshot) (ss : List Snapshot) (c : Snapshot)
    → history_errors (s ∷ (ss ++ c ∷ [])) ≡ history_errors (s ∷ ss) ++ step_errors (latest s ss) c
unfolding history_errors
history_errors-snoc s [] c = append-nil (step_errors s c)
history_errors-snoc s (t ∷ ts) c =
    ap (λ (es : List PolicyError). step_errors s t ++ es) (history_errors-snoc t ts c)
    ∙ sym (append_assoc (step_errors s t) (history_errors (t ∷ ts)) (step_errors (latest t ts) c))

-- The steps of a history pass the policy.
abbrev pub IsConforming : Option (List Snapshot) → Type 0
IsConforming none = Unit
IsConforming (some h) = history_errors h ≡ []

map-eq-nil : (es : List PolicyError) → map EvolutionError.policy es ≡ [] → es ≡ []
map-eq-nil [] h = refl
map-eq-nil (e ∷ es) h = cc

single-conforms : (c : Snapshot) → history_errors (c ∷ []) ≡ []
unfolding history_errors
single-conforms c = refl

freeze_one-cases :
    (s : Snapshot) (ss : List Snapshot) (c : Snapshot) (h : List Snapshot)
    → freeze_one (some (s ∷ ss)) c ≡ ([], h)
    → (comparable_equal (latest s ss) c ≡ true) × (s ∷ ss ≡ h)
      ⊎ (step_errors (latest s ss) c ≡ []) × (s ∷ (ss ++ c ∷ []) ≡ h)
unfolding freeze_one
freeze_one-cases s ss c h e = elim (Bool-cases (comparable_equal (latest s ss) c)) [
  | inl same ↦ inl (same, ground arith)
  | inr other ↦ inr (
    map-eq-nil (step_errors (latest s ss) c) (
        (append-eq-nil (map EvolutionError.policy (step_errors (latest s ss) c)) _
          (ap (λ (p : List EvolutionError × List Snapshot). p.0) (rw other at e))).0),
    ap (λ (p : List EvolutionError × List Snapshot). p.1) (rw other at e),
  )
]

abbrev pub past : Option (List Snapshot) → List Snapshot
past none = []
past (some h) = h

no-errors : history_errors [] ≡ []
unfolding history_errors
no-errors = refl

-- Where a contract's snapshot has no key twice, so that it compares equal to itself, a freeze without
-- errors records a history with just the policy errors of the steps that were there before: the step
-- that it adds, if any, passes the policy, and so does the step from the last recorded snapshot to the
-- current one.
pub freeze_one-history_errors :
    (o : Option (List Snapshot)) (c : Snapshot) (h : List Snapshot)
    → comparable_equal c c ≡ true
    → freeze_one o c ≡ ([], h)
    → (s : Snapshot) × (ss : List Snapshot) × (h ≡ s ∷ ss)
      × (history_errors (s ∷ ss) ≡ history_errors (past o))
      × (step_errors (latest s ss) c ≡ [])
freeze_one-history_errors none c h own e = (
  c,
  [],
  unfold freeze_one in ground arith,
  single-conforms c ∙ sym no-errors,
  step_errors-same c c own,
)
freeze_one-history_errors (some []) c h own e = (
  c,
  [],
  unfold freeze_one in ground arith,
  single-conforms c ∙ sym no-errors,
  step_errors-same c c own,
)
freeze_one-history_errors (some (s ∷ ss)) c h own e = elim (freeze_one-cases s ss c h e) [
  | inl (same, p) ↦ (s, ss, sym p, refl, step_errors-same (latest s ss) c same)
  | inr (clean, p) ↦ (
    s,
    ss ++ c ∷ [],
    sym p,
    history_errors-snoc s ss c
        ∙ ap (λ es. history_errors (s ∷ ss) ++ es) clean
        ∙ append-nil (history_errors (s ∷ ss)),
    rw (latest-snoc s ss c) (step_errors-same c c own),
  )
]

past-conforms : (o : Option (List Snapshot)) → IsConforming o → history_errors (past o) ≡ []
past-conforms none h = no-errors
past-conforms (some hs) h = h

-- Every baseline file holds a history whose steps pass the policy.
abbrev pub AllConforming : Baselines → Type 0
AllConforming [] = Unit
AllConforming ((id, h) ∷ files) = (history_errors h ≡ []) × AllConforming files

lookup-IsConforming :
    (id : Text) (files : Baselines) → AllConforming files → IsConforming (lookup id files)
unfolding lookup
lookup-IsConforming id [] h = tt
lookup-IsConforming id ((j, hist) ∷ files) (own, rest) = elim (Bool-cases (id == j)) [
  | inl e ↦ rw e own
  | inr e ↦ rw e (lookup-IsConforming id files rest)
]

-- A contract's snapshot has no key twice, so it compares equal to itself.
abbrev pub AllDicts : Dict Text Snapshot → Type 0
AllDicts [] = Unit
AllDicts ((id, c) ∷ contracts) = (comparable_equal c c ≡ true) × AllDicts contracts

module _ (files : Baselines) where
  freeze_all-AllConforming :
      (contracts : Dict Text Snapshot)
      → AllConforming files
      → AllDicts contracts
      → (freeze_all files contracts).0 ≡ []
      → AllConforming (freeze_all files contracts).1
  unfolding freeze_all
  freeze_all-AllConforming [] conf dicts e = tt
  freeze_all-AllConforming ((id, c) ∷ contracts) conf (own, dicts) e =
      let (one, more) =
        append-eq-nil (freeze_one (lookup id files) c).0 (freeze_all files contracts).0 e in
      let (s, ss, same, kept, _) =
        freeze_one-history_errors (lookup id files) c (freeze_one (lookup id files) c).1 own
          (λ i. (one i, (freeze_one (lookup id files) c).1)) in
      let before = past-conforms (lookup id files) (lookup-IsConforming id files conf) in
      (ap history_errors same ∙ kept ∙ before, freeze_all-AllConforming contracts conf dicts more)

  -- Whatever the errors, a freeze leaves only histories whose steps pass the policy, if it found
  -- only such.
  pub freeze_baselines-AllConforming :
      (load_errors : List EvolutionError) (contracts : Dict Text Snapshot)
      → AllConforming files
      → AllDicts contracts
      → AllConforming (freeze_baselines files load_errors contracts).0
  unfolding freeze_baselines
  freeze_baselines-AllConforming load_errors contracts conf dicts =
      go (load_errors ++ (freeze_all files contracts).0) refl
    where
      go :
          (es : List EvolutionError)
          → load_errors ++ (freeze_all files contracts).0 ≡ es
          → AllConforming (written files es (freeze_all files contracts).1).0
      go [] p = freeze_all-AllConforming contracts conf dicts ((append-eq-nil load_errors _ p).1)
      go (x ∷ es) p = conf

-- The first freeze of a contract checks no numbers: a snapshot in which one number names two fields
-- is recorded without an error, and the check of the recorded history then fails.
pub freeze_first_unchecked :
    (c : Snapshot)
    → proto_number_errors (c ∷ []) ≢ []
    → (freeze_one none c ≡ ([], c ∷ [])) × ((evaluate (some (c ∷ [])) c).errors ≢ [])
unfolding freeze_one evaluate
freeze_first_unchecked c twice = (
  refl,
  λ e. twice (
      narrower c
        (numbers (step_errors c c) (proto_number_errors (c ∷ c ∷ [])) (history_errors (c ∷ [])) e)),
)
  where
    numbers :
        (ps : List PolicyError) (ns : List NumberError) (hs : List PolicyError)
        → map EvolutionError.policy ps ++ map EvolutionError.in_history hs ++ map proto_number ns
          ≡ []
        → ns ≡ []
    numbers ps [] hs e = refl
    numbers ps (n ∷ ns) hs e =
        cc
          ((append-eq-nil (map EvolutionError.policy ps ++ map EvolutionError.in_history hs) _ e).1)

    narrower :
        (c : Snapshot) → proto_number_errors (c ∷ c ∷ []) ≡ [] → proto_number_errors (c ∷ []) ≡ []
    narrower c e = proto_number_errors-prefix (c ∷ []) (c ∷ []) e
