-- ===== src/Workflow/Consistency/Acting.antt =====
-- The direct actions on an active step keep the steps consistent.
use crmp_backend.Base.{
  ℕ, ◌≡◌, refl, sym, ap, ◌∙◌, subst, Bool, true, false, String, Option, some, ◌==◌, arith, inl, inr,
  find, All-Mem, find-Mem, filter-Mem, Memᴰ, ok, bad_request, not_found, or_throw-eq-ok, >>=-eq-ok,
  state_of_ok, ok-injective,
}
use crmp_backend.Workflow.Model.{
  Proposal, Approval, Status, DecisionOutcome, accepted, rejected, needs_revision, pending,
  decided_by,
}
use crmp_backend.Workflow.Store.{Db, find_proposal, steps_of}
use crmp_backend.Workflow.Approvers.{validate_approver_authority}
use crmp_backend.Workflow.Completion.{
  Env, Advancement, set_step, set_proposal, record_status, advance_workflow,
}
use crmp_backend.Workflow.Actions.{
  active_step, proposal_with_active_step, decide, accept_step, transition_step, reject_step,
  request_revision, send_back, deactivate_pending,
}
use crmp_backend.Workflow.Consistency.{IsClosed, IsStopped, IsStepOf, IsConsistent, status_in}
use crmp_backend.Workflow.Consistency.Advance.{set_step-IsConsistent, advance_workflow-IsConsistent}
use crmp_backend.Workflow.Consistency.Halt.{
  IsHalting, IsConsistent-IsHalting, set_step-IsHalting, deactivate_pending-IsConsistent,
}

-- The step is a pending step of the proposal, which is under review.
pub record IsActing (q : Proposal) (step : Approval) (db : Db) : Type 0 where
  pub under : status_in db.proposals q.id ≡ some Status.under_review
  pub listed : Memᴰ step db.approvals
  pub mine : step.proposal_id ≡ q.id
  pub waits : step.decision ≡ pending

pub find_proposal-id : (p : ℕ) (db : Db) {q : Proposal} → find_proposal p db ≡ some q → q.id ≡ p
unfolding find_proposal
find_proposal-id p db found = let (_, t) = find-Mem _ db.proposals found in ground arith

pub find_proposal-status_in :
    (p : ℕ) (db : Db) {q : Proposal}
    → find_proposal p db ≡ some q
    → status_in db.proposals p ≡ some q.current_status
unfolding find_proposal status_in
find_proposal-status_in p db found = ground arith

-- Only a proposal under review has an active step, and that step is pending.
pub active_IsStepOf :
    (i : ℕ) (s : Status) (a : Approval)
    → IsStepOf i (some s) a
    → a.is_active ≡ true
    → (s ≡ Status.under_review) × (a.decision ≡ pending)
active_IsStepOf i Status.draft a (off, _) on = cc
active_IsStepOf i Status.under_review a (inl waits) on = (refl, waits)
active_IsStepOf i Status.under_review a (inr (_, off)) on = cc
active_IsStepOf i Status.needs_revision a (off, _) on = cc
active_IsStepOf i Status.approved a (_, off) on = cc
active_IsStepOf i Status.rejected a (off, _) on = cc

pub proposal_with_active_step-IsActing :
    (p : ℕ) (db : Db) (q : Proposal) (step : Approval)
    → IsConsistent db
    → proposal_with_active_step p db ≡ ok (q, step)
    → IsActing q step db × (q.id ≡ p)
unfolding proposal_with_active_step active_step steps_of
proposal_with_active_step-IsActing p db q step c e =
    let (q', found, e') = or_throw-eq-ok (find_proposal p db) not_found _ e in
    let (step', active, e'') =
      or_throw-eq-ok (find (λ a. a.is_active) (steps_of p db)) bad_request _ e' in
    let same_q : q' ≡ q = cc in
    let same_step : step' ≡ step = cc in
    let (in_steps, on) = find-Mem (λ a. a.is_active) (steps_of p db) active in
    let (m, t) = filter-Mem (λ a. a.proposal_id == p) db.approvals in_steps in
    let mine : step'.proposal_id ≡ p = ground arith in
    let fits : IsStepOf (c.failing p) (some q'.current_status) step' =
      subst (λ o. IsStepOf (c.failing p) o step') (find_proposal-status_in p db found)
        (subst (λ r. IsStepOf (c.failing r) (status_in db.proposals r) step') mine
          (All-Mem _ c.steps m)) in
    let (under, waits) = active_IsStepOf (c.failing p) q'.current_status step' fits on in
    let id : q'.id ≡ p = find_proposal-id p db found in
    let acting : IsActing q' step' db = record {
      under = ap (status_in db.proposals) id ∙ find_proposal-status_in p db found ∙ ap some under;
      listed = m;
      mine = mine ∙ sym id;
      waits = waits;
    } in
    (
      subst (λ r. IsActing r step db) same_q (subst (λ b. IsActing q' b db) same_step acting),
      ap (λ (r : Proposal). r.id) (sym same_q) ∙ id,
    )

-- A step that is accepted.
pub accepted-IsConsistent :
    (q : Proposal) (step : Approval) (f : Approval → Approval) (db : Db)
    → IsConsistent db
    → IsActing q step db
    → ((a : Approval) → (f a).id ≡ a.id)
    → ((a : Approval) → (f a).proposal_id ≡ a.proposal_id)
    → IsClosed (f step)
    → IsConsistent (set_step step.id f db)
accepted-IsConsistent q step f db c h same_id same_p closed =
    set_step-IsConsistent q.id f db step c same_id same_p h.under h.listed h.mine (λ _. inr closed)

pub accept_step-IsConsistent :
    (env : Env) (p u : ℕ) (comment : Option String) (db : Db) {r : Advancement × Option Proposal}
    {db' : Db}
    → IsConsistent db
    → accept_step env p u comment db ≡ ok (r, db')
    → IsConsistent db'
unfolding accept_step set_step
accept_step-IsConsistent env p u comment db c e =
    let ((q, step), opened, e1) = >>=-eq-ok (proposal_with_active_step p db) _ e in
    let (_, allowed, e2) = >>=-eq-ok (validate_approver_authority db u q step) _ e1 in
    let ((adv, db2), advanced, e3) =
      >>=-eq-ok (advance_workflow env p u (set_step step.id (decide env u comment accepted) db)) _
        e2 in
    let (h, id) = proposal_with_active_step-IsActing p db q step c opened in
    subst IsConsistent (state_of_ok e3) (
      advance_workflow-IsConsistent env p u (set_step step.id (decide env u comment accepted) db)
        (accepted-IsConsistent q step (decide env u comment accepted) db c h (λ a. refl) (λ a. refl)
          (refl, refl))
        (ap (status_in db.proposals) (sym id) ∙ h.under) advanced)

-- A step that fails, before the other steps are deactivated.
pub failed-IsHalting :
    (q : Proposal) (step : Approval) (f : Approval → Approval) (db : Db)
    → IsConsistent db
    → IsActing q step db
    → ((a : Approval) → (f a).id ≡ a.id)
    → ((a : Approval) → (f a).proposal_id ≡ a.proposal_id)
    → ((a : Approval) → (f a).is_active ≡ false)
    → IsHalting q.id step.id (set_step step.id f db)
failed-IsHalting q step f db c h same_id same_p off =
    set_step-IsHalting q.id step.id f db same_id same_p off
      (IsConsistent-IsHalting q.id db c h.under h.listed h.mine)

transition_step-IsConsistent :
    (env : Env) (p u : ℕ) (o : DecisionOutcome) (s : Status) (editable : Bool)
    (comment : Option String) (db : Db) {db' : Db}
    → ((i : ℕ) (a : Approval) → IsStopped i a → IsStepOf i (some s) a)
    → IsConsistent db
    → transition_step env p u o s editable comment db ≡ ok db'
    → IsConsistent db'
unfolding transition_step set_step
transition_step-IsConsistent env p u o s editable comment db stops c e =
    let ((q, step), opened, e1) = >>=-eq-ok (proposal_with_active_step p db) _ e in
    let (_, allowed, e2) = >>=-eq-ok (validate_approver_authority db u q step) _ e1 in
    let (h, id) = proposal_with_active_step-IsActing p db q step c opened in
    let halting =
      failed-IsHalting q step (decide env u comment o) db c h (λ a. refl) (λ a. refl) (λ a. refl) in
    subst IsConsistent (ok-injective e2) (
      subst
        (λ r. IsConsistent (
          record_status env r u q.current_status s (decided_by o step.approver_role step.step_order)
            (set_proposal r (send_back s editable)
              (deactivate_pending r (set_step step.id (decide env u comment o) db)))))
        id
        (deactivate_pending-IsConsistent env q.id step.id u q.current_status s
          (decided_by o step.approver_role step.step_order) editable (stops step.id)
          (set_step step.id (decide env u comment o) db) h.under halting))

pub reject_step-IsConsistent :
    (env : Env) (p u : ℕ) (comment : Option String) (db : Db) {db' : Db}
    → IsConsistent db
    → reject_step env p u comment db ≡ ok db'
    → IsConsistent db'
unfolding reject_step
reject_step-IsConsistent env p u comment db c e =
    transition_step-IsConsistent env p u rejected Status.draft false comment db (λ i a k. k) c e

pub request_revision-IsConsistent :
    (env : Env) (p u : ℕ) (comment : Option String) (db : Db) {db' : Db}
    → IsConsistent db
    → request_revision env p u comment db ≡ ok db'
    → IsConsistent db'
unfolding request_revision
request_revision-IsConsistent env p u comment db c e =
    transition_step-IsConsistent env p u needs_revision Status.needs_revision true comment db
      (λ i a k. k) c e
