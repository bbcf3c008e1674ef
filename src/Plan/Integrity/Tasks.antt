-- ===== src/Plan/Integrity/Tasks.antt =====
-- What the plan's tasks are like where there is no finding.
use ss_common.Prelude.{
  ◌≡◌, ◌↔◌, refl, Bool, true, false, not, ◌&&◌, Option, none, some, List, [], ◌∷◌, ◌++◌, map, Text,
  ◌==◌, list_eq, nat_eq, ==_iff, contains, Distinct, is_empty, is_some, lookup, All, AllNew,
  AllNew-cons, AllNew-nil, append-eq-nil, arith,
}
use ss_common.Plan.{Task, field_of}
use ss_common.Plan.Summary.{identifier_of}
use ss_common.Plan.Integrity.{
  PlanFinding, agent_section, human_section, plan_sections, required_fields, human_step, finding_if,
  serves, agent_status, serves_findings, identity_findings, field_findings, metadata_findings,
  allowed_statuses, status_findings, task_findings,
}

pub finding_if-nil : (b : Bool) (f : PlanFinding) → (finding_if b f ≡ []) ↔ (b ≡ false)
finding_if-nil true f = (λ h. cc, λ h. cc)
finding_if-nil false f = (λ h. refl, λ h. refl)

pub finding_unless-nil : (b : Bool) (f : PlanFinding) → (finding_if (not b) f ≡ []) ↔ (b ≡ true)
finding_unless-nil true f = (λ h. refl, λ h. refl)
finding_unless-nil false f = (λ h. cc, λ h. cc)

finding_when-nil :
    (a b : Text) (c : Bool) (f : PlanFinding)
    → (finding_if (a == b && c) f ≡ []) ↔ (a ≡ b → c ≡ false)
finding_when-nil a b true f =
    (λ h e. ground (arith, ==_iff a b), λ h. ground (arith, ==_iff a b, h))
finding_when-nil a b false f = (λ h e. refl, λ h. ground arith)

pub both :
    {P Q : Type 0} (xs ys : List PlanFinding)
    → (xs ≡ []) ↔ P
    → (ys ≡ []) ↔ Q
    → (xs ++ ys ≡ []) ↔ (P × Q)
both xs ys p q = (
  λ h. (p.0 (append-eq-nil xs ys h).0, q.0 (append-eq-nil xs ys h).1),
  λ h. rw (p.1 h.0, q.1 h.1) refl,
)

-- The task serves the registered capability that it stands under, in a lane of the plan.
abbrev pub IsPlaced : List Text → Task → Type 0
IsPlaced known t =
    (contains plan_sections t.section ≡ true)
    × ((is_empty t.group ≡ false) × ((serves t ≡ some t.group) × (contains known t.group ≡ true)))

-- Every required field has text, and a human step stands in the human lane alone.
abbrev pub IsDescribed : Task → Type 0
IsDescribed t =
    All (λ f. is_empty (field_of f t) ≡ false) required_fields
    × ((t.section ≡ human_section → is_empty (field_of human_step t) ≡ false)
        × (t.section ≡ agent_section → is_some (lookup human_step t.fields) ≡ false))

-- The status, where there is one, is one of its lane.
abbrev pub HasStatus : (Text → Text) → Task → Type 0
HasStatus upper t =
    (status : Text)
    → agent_status upper t ≡ some status
    → contains (allowed_statuses t.section) status ≡ true

serves_findings-nil :
    (known : List Text) (t : Task) (o : Option Text)
    → (serves_findings known t o ≡ []) ↔ ((o ≡ some t.group) × (contains known t.group ≡ true))
unfolding serves_findings
serves_findings-nil known t none = (λ h. cc, λ h. cc)
serves_findings-nil known t (some id) =
    (λ h. ground (arith, ==_iff t.group id), λ h. ground (arith, ==_iff t.group id))

identity_findings-nil :
    (known identifiers : List Text) (t : Task)
    → (identity_findings known identifiers t ≡ [])
      ↔ ((contains identifiers t.identifier ≡ false) × IsPlaced known t)
unfolding identity_findings
identity_findings-nil known identifiers t = both _ _ (finding_if-nil _ _) (
    both _ _ (finding_unless-nil _ _)
      (both _ _ (finding_if-nil _ _) (serves_findings-nil known t (serves t))))

field_findings-nil :
    (t : Task) (fs : List Text)
    → (field_findings t fs ≡ []) ↔ All (λ f. is_empty (field_of f t) ≡ false) fs
unfolding field_findings
field_findings-nil t [] = (λ h. tt, λ h. refl)
field_findings-nil t (f ∷ fs) = both _ _ (finding_if-nil _ _) (field_findings-nil t fs)

metadata_findings-nil : (t : Task) → (metadata_findings t ≡ []) ↔ IsDescribed t
unfolding metadata_findings
metadata_findings-nil t = both _ _ (field_findings-nil t required_fields) (
    both _ _ (finding_when-nil t.section human_section _ _)
      (finding_when-nil t.section agent_section _ _))

status_findings-nil :
    (t : Task) (o : Option Text)
    → (status_findings t o ≡ [])
      ↔ ((status : Text) → o ≡ some status → contains (allowed_statuses t.section) status ≡ true)
unfolding status_findings
status_findings-nil t none = (λ h status e. cc, λ h. refl)
status_findings-nil t (some s) = (λ h status e. ground (arith), λ h. ground (arith, h s refl))

-- A task without a finding but for its identifier.
pub record IsPlanned (upper : Text → Text) (known : List Text) (t : Task) : Type 0 where
  pub placed : IsPlaced known t
  pub described : IsDescribed t
  pub status : HasStatus upper t

task_findings-new :
    (upper : Text → Text) (known seen : List Text) (ts : List Task)
    → (task_findings upper known seen ts ≡ []) ↔ (
        AllNew seen (map identifier_of ts)
        × (Distinct (map identifier_of ts) × All (IsPlanned upper known) ts))
unfolding task_findings
task_findings-new upper known seen [] = (λ h. (tt, (tt, tt)), λ h. refl)
task_findings-new upper known seen (t ∷ ts) =
    let ids = map identifier_of ts in
    let (split, join) = both _ _ (identity_findings-nil known seen t) (
      both _ _ (metadata_findings-nil t) (
        both _ _ (status_findings-nil t (agent_status upper t))
          (task_findings-new upper known (t.identifier ∷ seen) ts))) in
    let (apart, together) = AllNew-cons t.identifier seen ids in
    (
      λ h.
          let ((new, placed), (described, (status, (news, (distinct, planned))))) = split h in
          (
            (new, (apart news).1),
            (
              ((apart news).0, distinct),
              (record { placed = placed; described = described; status = status }, planned),
            ),
          ),
      λ h.
          let ((new, news), ((once, distinct), (ok, planned))) = h in
          join (
            (new, ok.placed),
            (ok.described, (ok.status, (together (once, news), (distinct, planned)))),
          ),
    )

-- There is no finding on the tasks just where no identifier is repeated and every task stands in a
-- lane under the registered capability that it serves, has the required fields and the human step
-- of its lane, and a status of its lane.
pub task_findings_iff :
    (upper : Text → Text) (known : List Text) (ts : List Task)
    → (task_findings upper known [] ts ≡ [])
      ↔ (Distinct (map identifier_of ts) × All (IsPlanned upper known) ts)
task_findings_iff upper known ts =
    let (there, back) = task_findings-new upper known [] ts in
    (λ h. (there h).1, λ h. back (AllNew-nil (map identifier_of ts), h))
