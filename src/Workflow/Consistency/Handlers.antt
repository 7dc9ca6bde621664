-- ===== src/Workflow/Consistency/Handlers.antt =====
-- The unified action, with its three handlers, keeps the steps consistent.
use crmp_backend.Base.{
  ℕ, ◌≡◌, refl, ◌∙◌, subst, true, false, some, ◌==◌, inl, inr, Bool-cases, ==_refl, put, mem_nat,
  mem_str, length, update_where-Mem, ok, bad_request, or_throw-eq-ok, require-eq-ok, >>=-eq-ok,
  state_of_ok,
}
use crmp_backend.Workflow.Model.{
  Proposal, Approval, Status, DecisionOutcome, accepted, rejected, needs_revision, pending, decided,
  decided_by, StepType, approval, vote, form,
}
use crmp_backend.Workflow.Store.{Db}
use crmp_backend.Workflow.Votes.{check_vote_threshold, final_decision, votes_of}
use crmp_backend.Workflow.Forms.{validate_form_submission, attach_files, schema_fields}
use crmp_backend.Workflow.Approvers.{eligible_voters, role_names, can_user_act_on_step}
use crmp_backend.Workflow.Completion.{Env, set_step, advance_workflow}
use crmp_backend.Workflow.Actions.{
  ActionData, ActionResult, proposal_with_active_step, decide, close_vote, mark_rejected,
  handle_rejection, conclude, handle_approval_step, handle_vote_step, handle_form_step, route,
  submit_action, data_of, fields_of, or_accepted,
}
use crmp_backend.Workflow.Consistency.{IsConsistent, status_in}
use crmp_backend.Workflow.Consistency.Advance.{
  set_step-IsConsistent, advance_workflow-IsConsistent, IsConsistent-same,
}
use crmp_backend.Workflow.Consistency.Halt.{
  IsHalting, set_step-IsHalting, deactivate_all-IsConsistent,
}
use crmp_backend.Workflow.Consistency.Acting.{
  IsActing, proposal_with_active_step-IsActing, accepted-IsConsistent, failed-IsHalting,
}

handle_rejection-IsConsistent :
    (env : Env) (q : Proposal) (step : Approval) (u : ℕ) (db : Db)
    → status_in db.proposals q.id ≡ some Status.under_review
    → IsHalting q.id step.id db
    → IsConsistent (handle_rejection env q step u db)
unfolding handle_rejection set_step
handle_rejection-IsConsistent env q step u db is h =
    deactivate_all-IsConsistent env q.id step.id u q.current_status Status.needs_revision
      (decided_by rejected step.approver_role step.step_order) true (λ a k. k)
      (set_step step.id (mark_rejected env u) db) is
      (set_step-IsHalting q.id step.id (mark_rejected env u) db (λ a. refl) (λ a. refl) (λ a. refl)
        h)

-- What a decision on the step has made of the tables.
abbrev IsDecided : Proposal → Approval → DecisionOutcome → Db → Type 0
IsDecided q step accepted db = IsConsistent db
IsDecided q step rejected db = IsHalting q.id step.id db
IsDecided q step needs_revision db = IsHalting q.id step.id db

conclude-IsConsistent :
    (env : Env) (q : Proposal) (step : Approval) (u : ℕ) (o told : DecisionOutcome) (db : Db)
    {r : ActionResult} {db' : Db}
    → status_in db.proposals q.id ≡ some Status.under_review
    → IsDecided q step o db
    → conclude env q step u o told db ≡ ok (r, db')
    → IsConsistent db'
unfolding conclude
conclude-IsConsistent env q step u accepted told db is h e =
    let ((adv, db2), advanced, e') = >>=-eq-ok (advance_workflow env q.id u db) _ e in
    subst IsConsistent (state_of_ok e') (advance_workflow-IsConsistent env q.id u db h is advanced)
conclude-IsConsistent env q step u rejected told db is h e =
    subst IsConsistent (state_of_ok e) (handle_rejection-IsConsistent env q step u db is h)
conclude-IsConsistent env q step u needs_revision told db is h e =
    subst IsConsistent (state_of_ok e) (handle_rejection-IsConsistent env q step u db is h)

-- A write of any decision on the acting step.
decided-IsDecided :
    (q : Proposal) (step : Approval) (o : DecisionOutcome) (f : Approval → Approval) (db : Db)
    → IsConsistent db
    → IsActing q step db
    → ((a : Approval) → (f a).id ≡ a.id)
    → ((a : Approval) → (f a).proposal_id ≡ a.proposal_id)
    → ((a : Approval) → (f a).is_active ≡ false)
    → (f step).decision ≡ decided o
    → IsDecided q step o (set_step step.id f db)
decided-IsDecided q step accepted f db c h same_id same_p off d =
    accepted-IsConsistent q step f db c h same_id same_p (d, off step)
decided-IsDecided q step rejected f db c h same_id same_p off d =
    failed-IsHalting q step f db c h same_id same_p off
decided-IsDecided q step needs_revision f db c h same_id same_p off d =
    failed-IsHalting q step f db c h same_id same_p off

-- A write on the acting step that leaves its decision pending, as the new state of the action.
keep_pending :
    (q : Proposal) (step : Approval) (f : Approval → Approval) (db : Db)
    → IsConsistent db
    → IsActing q step db
    → ((a : Approval) → (f a).id ≡ a.id)
    → ((a : Approval) → (f a).proposal_id ≡ a.proposal_id)
    → (f step).decision ≡ pending
    → IsConsistent (set_step step.id f db) × IsActing q (f step) (set_step step.id f db)
unfolding set_step
keep_pending q step f db c h same_id same_p d = (
  set_step-IsConsistent q.id f db step c same_id same_p h.under h.listed h.mine (λ _. inl d),
  record {
    under = h.under;
    listed = update_where-Mem (λ a. a.id == step.id) f db.approvals (==_refl step.id) h.listed;
    mine = same_p step ∙ h.mine;
    waits = d;
  },
)

handle_approval_step-IsConsistent :
    (env : Env) (q : Proposal) (step : Approval) (u : ℕ) (d : ActionData) (db : Db)
    {r : ActionResult} {db' : Db}
    → IsConsistent db
    → IsActing q step db
    → handle_approval_step env q step u d db ≡ ok (r, db')
    → IsConsistent db'
unfolding handle_approval_step set_step
handle_approval_step-IsConsistent env q step u d db c h e =
    let (o, given, e') = or_throw-eq-ok d.decision bad_request _ e in
    conclude-IsConsistent env q step u o o (set_step step.id (decide env u d.comment o) db) h.under
      (decided-IsDecided q step o (decide env u d.comment o) db c h (λ a. refl) (λ a. refl)
        (λ a. refl) refl)
      e'

handle_form_step-IsConsistent :
    (env : Env) (q : Proposal) (step : Approval) (u : ℕ) (d : ActionData) (db : Db)
    {r : ActionResult} {db' : Db}
    → IsConsistent db
    → IsActing q step db
    → handle_form_step env q step u d db ≡ ok (r, db')
    → IsConsistent db'
unfolding handle_form_step set_step
handle_form_step-IsConsistent env q step u d db c h e =
    let submitted = data_of d.input in
    let (_, valid, e') =
      >>=-eq-ok (validate_form_submission submitted step.dynamic_fields u db.files) _ e in
    let store = λ (a : Approval). record a { submitted_json = some submitted } in
    let (c1, h1) = keep_pending q step store db c h (λ a. refl) (λ a. refl) h.waits in
    let stored = set_step step.id store db in
    let fs = fields_of (schema_fields step.dynamic_fields) in
    let filed = record stored { files = attach_files fs submitted step.id stored.files } in
    let o = or_accepted d.decision in
    conclude-IsConsistent env q step u o rejected
      (set_step step.id (decide env u d.comment o) filed) h.under
      (decided-IsDecided q (store step) o (decide env u d.comment o) filed
        (IsConsistent-same stored filed c1 refl refl)
        (record { under = h1.under; listed = h1.listed; mine = h1.mine; waits = h1.waits })
        (λ a. refl) (λ a. refl) (λ a. refl) refl)
      e'

handle_vote_step-IsConsistent :
    (env : Env) (q : Proposal) (step : Approval) (u : ℕ) (d : ActionData) (db : Db)
    {r : ActionResult} {db' : Db}
    → IsConsistent db
    → IsActing q step db
    → handle_vote_step env q step u d db ≡ ok (r, db')
    → IsConsistent db'
unfolding handle_vote_step set_step
handle_vote_step-IsConsistent env q step u d db {r} {db'} c h e =
    let voters = eligible_voters step.approver_role db.accounts in
    let votes = put u (or_accepted d.decision) (votes_of step.vote_json) in
    let cast = λ (a : Approval). record a { vote_json = some votes } in
    let voted = set_step step.id cast db in
    let o = final_decision step.vote_threshold_strategy votes in
    let (_, e') = require-eq-ok (mem_nat u voters) bad_request _ e in
    let (met, checked, e'') =
      >>=-eq-ok
        (check_vote_threshold votes (length voters) step.vote_threshold
          step.vote_threshold_strategy)
        _ e' in
    let (c1, h1) = keep_pending q step cast db c h (λ a. refl) (λ a. refl) h.waits in
    elim (Bool-cases met) [
      | inl t ↦
          conclude-IsConsistent env q step u o rejected
            (set_step step.id (close_vote env d.comment o) voted) h.under
            (decided-IsDecided q (cast step) o (close_vote env d.comment o) voted c1 h1 (λ a. refl)
              (λ a. refl) (λ a. refl) refl)
            (rw t at e'')
      | inr f ↦ subst IsConsistent (state_of_ok (rw f at e'')) c1
    ]

route-IsConsistent :
    (t : StepType) (env : Env) (q : Proposal) (step : Approval) (u : ℕ) (d : ActionData) (db : Db)
    {r : ActionResult} {db' : Db}
    → IsConsistent db
    → IsActing q step db
    → route t env q step u d db ≡ ok (r, db')
    → IsConsistent db'
unfolding route
route-IsConsistent approval env q step u d db c h e =
    handle_approval_step-IsConsistent env q step u d db c h e
route-IsConsistent vote env q step u d db c h e =
    handle_vote_step-IsConsistent env q step u d db c h e
route-IsConsistent form env q step u d db c h e =
    handle_form_step-IsConsistent env q step u d db c h e

pub submit_action-IsConsistent :
    (env : Env) (p u : ℕ) (d : ActionData) (db : Db) {r : ActionResult} {db' : Db}
    → IsConsistent db
    → submit_action env p u d db ≡ ok (r, db')
    → IsConsistent db'
unfolding submit_action
submit_action-IsConsistent env p u d db c e =
    let ((q, step), opened, e1) = >>=-eq-ok (proposal_with_active_step p db) _ e in
    let (_, e2) =
      require-eq-ok (mem_str step.approver_role (role_names u db.accounts)) bad_request _ e1 in
    let (can_act, asked, e3) = >>=-eq-ok (can_user_act_on_step db step u q) _ e2 in
    let (_, e4) = require-eq-ok can_act bad_request _ e3 in
    let (h, _) = proposal_with_active_step-IsActing p db q step c opened in
    route-IsConsistent step.step_type env q step u d db c h e4
