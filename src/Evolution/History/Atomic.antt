-- ===== src/Evolution/History/Atomic.antt =====
-- A freeze writes the files of all contracts or none.
use ss_common.Prelude.{
  ◌≡◌, ◌≢◌, ◌↔◌, refl, sym, ap, ◌∙◌, true, false, Bool, if◌then◌else◌, Option, none, some, List, [],
  ◌∷◌, ◌++◌, map, Text, ◌==◌, ==_iff, list_eq, nat_eq, Dict, lookup, append-eq-nil, Bool-cases, inl,
  inr, ◌⊎◌,
}
use ss_common.Evolution.Snapshot.{Snapshot}
use ss_common.Evolution.Numbers.{proto_number_errors}
use ss_common.Evolution.History.{
  EvolutionError, proto_number, step_errors, latest, comparable_equal, freeze_one, Baselines,
  freeze_all, written, freeze_baselines,
}

-- A contract without a history is accepted, as is one that compares equal to its last snapshot; another
-- one where the step to it passes the policy and no proto number has named another field.
abbrev pub IsAccepted : Option (List Snapshot) → Snapshot → Type 0
IsAccepted none c = Unit
IsAccepted (some []) c = Unit
IsAccepted (some (s ∷ ss)) c =
    (comparable_equal (latest s ss) c ≡ true)
    ⊎ ((step_errors (latest s ss) c ≡ []) × (proto_number_errors (s ∷ (ss ++ c ∷ [])) ≡ []))

map-nil : {A B : Type 0} (f : A → B) (xs : List A) → (map f xs ≡ []) ↔ (xs ≡ [])
map-nil f [] = (λ h. refl, λ h. refl)
map-nil f (x ∷ xs) = (λ h. cc, λ h. cc)

append-nil_iff :
    {A : Type 0} (xs ys : List A) {P Q : Type 0}
    → (xs ≡ []) ↔ P
    → (ys ≡ []) ↔ Q
    → (xs ++ ys ≡ []) ↔ (P × Q)
append-nil_iff xs ys p q = (
  λ h. let (a, b) = append-eq-nil xs ys h in (p.0 a, q.0 b),
  λ h. ap (λ zs. zs ++ ys) (p.1 h.0) ∙ q.1 h.1,
)

-- Of a test and what is asked where it fails.
tested :
    (b : Bool) {A : Type 0} (x : List EvolutionError) (y z : A) (r : List EvolutionError × A)
    {P : Type 0}
    → r ≡ (if b then ([], y) else (x, z))
    → (x ≡ []) ↔ P
    → (r.0 ≡ []) ↔ ((b ≡ true) ⊎ P)
tested true {A} x y z r e p = (λ h. inl refl, λ h. ap (λ (q : List EvolutionError × A). q.0) e)
tested false {A} x y z r e p =
    let same : r.0 ≡ x = ap (λ (q : List EvolutionError × A). q.0) e in
    (λ h. inr (p.0 (sym same ∙ h)), λ h. elim h [ inl q ↦ cc | inr q ↦ same ∙ p.1 q ])

freeze_one_iff :
    (o : Option (List Snapshot)) (c : Snapshot) → ((freeze_one o c).0 ≡ []) ↔ IsAccepted o c
unfolding freeze_one
freeze_one_iff none c = (λ h. tt, λ h. refl)
freeze_one_iff (some []) c = (λ h. tt, λ h. refl)
freeze_one_iff (some (s ∷ ss)) c = tested (comparable_equal (latest s ss) c) _ _ _ _ refl (
    append-nil_iff _ _ (map-nil EvolutionError.policy (step_errors (latest s ss) c))
      (map-nil proto_number (proto_number_errors (s ∷ (ss ++ c ∷ [])))))

-- The past snapshots, and after them the current one where it is not the last one again.
abbrev pub appended : Option (List Snapshot) → Snapshot → List Snapshot
appended none c = c ∷ []
appended (some []) c = c ∷ []
appended (some (s ∷ ss)) c = if comparable_equal (latest s ss) c then s ∷ ss else (s ∷ ss) ++ c ∷ []

chosen :
    (b : Bool) {A B : Type 0} (x z : A) (y w : B) (r : A × B)
    → r ≡ (if b then (x, y) else (z, w))
    → r.1 ≡ (if b then y else w)
chosen true {A} {B} x z y w r e = ap (λ (q : A × B). q.1) e
chosen false {A} {B} x z y w r e = ap (λ (q : A × B). q.1) e

freeze_one-appended :
    (o : Option (List Snapshot)) (c : Snapshot) → (freeze_one o c).1 ≡ appended o c
unfolding freeze_one
freeze_one-appended none c = refl
freeze_one-appended (some []) c = refl
freeze_one-appended (some (s ∷ ss)) c = chosen (comparable_equal (latest s ss) c) _ _ _ _ _ refl

module _ (files : Baselines) where
  abbrev pub AllAccepted : Dict Text Snapshot → Type 0
  AllAccepted [] = Unit
  AllAccepted ((id, c) ∷ contracts) = IsAccepted (lookup id files) c × AllAccepted contracts

  -- The history that is recorded for a contract, where there is one.
  abbrev pub recorded : Text → Option Snapshot → Option (List Snapshot)
  recorded id none = none
  recorded id (some c) = some (appended (lookup id files) c)

  freeze_all_iff :
      (contracts : Dict Text Snapshot)
      → ((freeze_all files contracts).0 ≡ []) ↔ AllAccepted contracts
  unfolding freeze_all
  freeze_all_iff [] = (λ h. tt, λ h. refl)
  freeze_all_iff ((id, c) ∷ contracts) =
      append-nil_iff (freeze_one (lookup id files) c).0 (freeze_all files contracts).0
        (freeze_one_iff (lookup id files) c) (freeze_all_iff contracts)

  freeze_all-lookup :
      (contracts : Dict Text Snapshot) (id : Text)
      → lookup id (freeze_all files contracts).1 ≡ recorded id (lookup id contracts)
  unfolding freeze_all lookup
  freeze_all-lookup [] id = refl
  freeze_all-lookup ((j, c) ∷ contracts) id = elim (Bool-cases (id == j)) [
    | inl e ↦ rw e (
        ap some (freeze_one-appended (lookup j files) c)
        ∙ ap (λ (n : Text). some (appended (lookup n files) c)) (sym ((==_iff id j).0 e)))
    | inr e ↦ rw e (freeze_all-lookup contracts id)
  ]

  -- A freeze writes all or nothing. Where loading gave no errors and every contract is accepted, it has
  -- no errors and leaves just the contracts' files, each with its past snapshots and, where it is new, the current one, so that the
  -- file of any other contract is gone. Otherwise it has errors, and the files are as they were.
  pub freeze_baselines_atomic :
      (load_errors : List EvolutionError) (contracts : Dict Text Snapshot)
      → ((load_errors ≡ [])
          × AllAccepted contracts
          × (((freeze_baselines files load_errors contracts).1 ≡ [])
              × ((id : Text)
                  → lookup id (freeze_baselines files load_errors contracts).0
                    ≡ recorded id (lookup id contracts))))
        ⊎ (¬ ((load_errors ≡ []) × AllAccepted contracts)
            × ((freeze_baselines files load_errors contracts).1 ≢ [])
            × ((freeze_baselines files load_errors contracts).0 ≡ files))
  unfolding freeze_baselines
  freeze_baselines_atomic load_errors contracts =
      by_errors (load_errors ++ (freeze_all files contracts).0)
        (append-nil_iff load_errors _ (λ h. h, λ h. h) (freeze_all_iff contracts))
    where
      by_errors :
          (es : List EvolutionError)
          → (es ≡ []) ↔ ((load_errors ≡ []) × AllAccepted contracts)
          → ((load_errors ≡ [])
              × AllAccepted contracts
              × (((written files es (freeze_all files contracts).1).1 ≡ [])
                  × ((id : Text)
                      → lookup id (written files es (freeze_all files contracts).1).0
                        ≡ recorded id (lookup id contracts))))
            ⊎ (¬ ((load_errors ≡ []) × AllAccepted contracts)
                × ((written files es (freeze_all files contracts).1).1 ≢ [])
                × ((written files es (freeze_all files contracts).1).0 ≡ files))
      by_errors [] p =
          let (loaded, accepted) = p.0 refl in
          inl (loaded, accepted, (refl, freeze_all-lookup contracts))
      by_errors (x ∷ es) p = inr (λ h. not_nil (p.1 h), (λ h. not_nil h), refl)
        where
          not_nil : x ∷ es ≡ [] → ⊥
          not_nil h = cc
