-- ===== src/Workflow/Acted.antt =====
-- What the result of `submitAction` of src/proposals/workflow.service.ts says of the proposal.
use crmp_backend.Base.{
  ℕ, ◌≡◌, refl, subst, Bool, true, false, if-cases, none, some, inl, inr, [], if◌then◌else◌, put,
  mem_nat, mem_str, length, ok, bad_request, >>=-eq-ok, or_throw-eq-ok, require-eq-ok, ok-injective,
}
use crmp_backend.Workflow.Model.{
  Proposal, Approval, Status, DecisionOutcome, rejected, StepType, vote, form, approval,
}
use crmp_backend.Workflow.Store.{Db}
use crmp_backend.Workflow.Approvers.{role_names, eligible_voters, can_user_act_on_step}
use crmp_backend.Workflow.Votes.{votes_of, check_vote_threshold}
use crmp_backend.Workflow.Forms.{validate_form_submission}
use crmp_backend.Workflow.Submission.{deactivate_all}
use crmp_backend.Workflow.Completion.{Env, advance_workflow, set_step, set_proposal, record_status}
use crmp_backend.Workflow.Actions.{
  ActionData, ActionResult, proposal_with_active_step, conclude, handle_rejection,
  handle_approval_step, handle_vote_step, handle_form_step, route, submit_action, send_back,
  or_accepted, decide, data_of,
}
use crmp_backend.Workflow.Consistency.{status_in}
use crmp_backend.Workflow.Consistency.Rows.{status_in-update_where_self}
use crmp_backend.Workflow.Consistency.Acting.{proposal_with_active_step-IsActing}
use crmp_backend.Workflow.Reach.{Reaches, Reaches-IsConsistent, IsConsistent-start}
use crmp_backend.Workflow.Outcomes.{advance_workflow-Tells}

-- The status of the proposal that a result stands for.
abbrev pub told_status : ActionResult → Status
told_status r = if r.is_complete then Status.approved else elim r.outcome [
  | some DecisionOutcome.rejected ↦ Status.needs_revision
  | some DecisionOutcome.needs_revision ↦ Status.needs_revision
  | _ ↦ Status.under_review
]

abbrev Says : ℕ → ActionResult × Db → Type 0
Says p c = status_in c.1.proposals p ≡ some (told_status c.0)

handle_rejection-status :
    (env : Env) (q : Proposal) (step : Approval) (u : ℕ) (db : Db)
    → status_in db.proposals q.id ≡ some Status.under_review
    → status_in (handle_rejection env q step u db).proposals q.id ≡ some Status.needs_revision
unfolding handle_rejection set_proposal set_step deactivate_all record_status
handle_rejection-status env q step u db is =
    status_in-update_where_self q.id (send_back Status.needs_revision true) (λ k. refl)
      Status.needs_revision db.proposals Status.under_review (λ k. refl) is

-- The outcome that a handler reports when it did not accept the step.
abbrev is_negative : DecisionOutcome → Bool
is_negative DecisionOutcome.accepted = false
is_negative _ = true

negative-Says :
    (env : Env) (q : Proposal) (step : Approval) (u : ℕ) (told : DecisionOutcome) (db : Db)
    → is_negative told ≡ true
    → status_in db.proposals q.id ≡ some Status.under_review
    → Says q.id (
      record {
        is_complete = false;
        next_step = none;
        outcome = some told;
        proposal = some q;
        project_data = none;
      },
      handle_rejection env q step u db,
    )
negative-Says env q step u DecisionOutcome.accepted db neg is = cc
negative-Says env q step u DecisionOutcome.rejected db neg is =
    handle_rejection-status env q step u db is
negative-Says env q step u DecisionOutcome.needs_revision db neg is =
    handle_rejection-status env q step u db is

conclude-Says :
    (env : Env) (q : Proposal) (step : Approval) (u : ℕ) (outcome told : DecisionOutcome) (db : Db)
    (c : ActionResult × Db)
    → (is_negative outcome ≡ true → is_negative told ≡ true)
    → status_in db.proposals q.id ≡ some Status.under_review
    → conclude env q step u outcome told db ≡ ok c
    → Says q.id c
unfolding conclude
conclude-Says env q step u DecisionOutcome.accepted told db c neg is h =
    let ((adv, db'), advanced, h) = >>=-eq-ok (advance_workflow env q.id u db) _ h in
    subst (Says q.id) (ok-injective h)
      (advance_workflow-Tells env q.id u db db' adv Status.under_review is advanced)
conclude-Says env q step u DecisionOutcome.rejected told db c neg is h =
    subst (Says q.id) (ok-injective h) (negative-Says env q step u told db (neg refl) is)
conclude-Says env q step u DecisionOutcome.needs_revision told db c neg is h =
    subst (Says q.id) (ok-injective h) (negative-Says env q step u told db (neg refl) is)

-- Each handler, on a proposal under review.
route-Says :
    (t : StepType) (env : Env) (q : Proposal) (step : Approval) (u : ℕ) (d : ActionData) (db : Db)
    (c : ActionResult × Db)
    → status_in db.proposals q.id ≡ some Status.under_review
    → route t env q step u d db ≡ ok c
    → Says q.id c
unfolding route handle_approval_step handle_vote_step handle_form_step set_step
route-Says approval env q step u d db c is h =
    let (o, _, h) = or_throw-eq-ok d.decision bad_request _ h in
    conclude-Says env q step u o o (set_step step.id (decide env u d.comment o) db) c (λ neg. neg)
      is h
route-Says form env q step u d db c is h =
    let (_, _, h) =
      >>=-eq-ok (validate_form_submission (data_of d.input) step.dynamic_fields u db.files) _ h in
    conclude-Says env q step u (or_accepted d.decision) rejected _ c (λ neg. refl) is h
route-Says vote env q step u d db c is h =
    let votes = put u (or_accepted d.decision) (votes_of step.vote_json) in
    let voters = eligible_voters step.approver_role db.accounts in
    let (_, h) = require-eq-ok (mem_nat u voters) bad_request _ h in
    let (met, _, h) =
      >>=-eq-ok
        (check_vote_threshold votes (length voters) step.vote_threshold
          step.vote_threshold_strategy)
        _ h in
    elim (if-cases met h) [
      | inl closed ↦ conclude-Says env q step u _ rejected _ c (λ neg. refl) is closed
      | inr waits ↦ subst (Says q.id) (ok-injective waits) is
    ]

-- In databases that calls reach from one with no steps, an action that succeeds leaves its proposal in
-- the status that its result stands for: approved if it is complete, otherwise Needs_Revision if its
-- outcome is a rejection or a request for revision, and otherwise under review.
pub acted_status :
    (db db' db'' : Db) (env : Env) (p u : ℕ) (d : ActionData) (r : ActionResult)
    → db.approvals ≡ []
    → Reaches db db'
    → submit_action env p u d db' ≡ ok (r, db'')
    → status_in db''.proposals p ≡ some (told_status r)
unfolding submit_action
acted_status db db' db'' env p u d r empty steps h =
    let ((q, step), opened, h) = >>=-eq-ok (proposal_with_active_step p db') _ h in
    let (_, h) =
      require-eq-ok (mem_str step.approver_role (role_names u db'.accounts)) bad_request _ h in
    let (can, _, h) = >>=-eq-ok (can_user_act_on_step db' step u q) _ h in
    let (_, h) = require-eq-ok can bad_request _ h in
    let (acting, id) =
      proposal_with_active_step-IsActing p db' q step
        (Reaches-IsConsistent (IsConsistent-start db empty) steps) opened in
    subst (λ i. status_in db''.proposals i ≡ some (told_status r)) id
      (route-Says step.step_type env q step u d db' (r, db'') acting.under h)
