-- ===== src/Workflow/Actions.antt =====
-- Acting on the active step: `acceptStep`, `rejectStep`, `requestRevision`, `transitionStep`,
-- `submitAction` and its handlers in src/proposals/workflow.service.ts. An error rolls the
-- transaction back.
use crmp_backend.Base.{
  ℕ, String, Bool, true, false, ◌&&◌, Option, none, some, List, [], ◌==◌, if◌then◌else◌, find,
  update_where, put, mem_str, mem_nat, length, Result, ok, bad_request, not_found, require,
  or_throw, ◌>>=◌, ◌>>◌,
}
use crmp_backend.Workflow.Model.{
  Proposal, Approval, Status, decided, DecisionOutcome, accepted, rejected, needs_revision,
  decided_by, StepType, approval, vote, form, SchemaField, FormData,
}
use crmp_backend.Workflow.Votes.{check_vote_threshold, final_decision, votes_of}
use crmp_backend.Workflow.Forms.{validate_form_submission, attach_files, schema_fields}
use crmp_backend.Workflow.Store.{Db, find_proposal, steps_of}
use crmp_backend.Workflow.Approvers.{
  role_names, validate_approver_authority, can_user_act_on_step, eligible_voters, is_pending,
}
use crmp_backend.Workflow.Completion.{
  Env, ProjectData, Advancement, set_proposal, set_step, record_status, advance_workflow,
}
use crmp_backend.Workflow.Submission.{or_null, deactivate_all}

-- `actionData`
pub record ActionData : Type 0 where
  pub decision : Option DecisionOutcome
  pub input : Option FormData
  pub comment : Option String

-- What `submitAction` returns from its transaction; `success` is always true.
pub record ActionResult : Type 0 where
  pub is_complete : Bool
  pub next_step : Option ℕ
  pub outcome : Option DecisionOutcome
  pub proposal : Option Proposal
  pub project_data : Option ProjectData

-- `getProposalWithActiveStep`, with the two checks that follow each call of it
unfoldable pub active_step : ℕ → Db → Option Approval
unfolding steps_of find
active_step p db = find (λ a. a.is_active) (steps_of p db)

unfoldable pub proposal_with_active_step : ℕ → Db → Result (Proposal × Approval)
unfolding find_proposal active_step
proposal_with_active_step p db = do
  q ← or_throw (find_proposal p db) not_found
  a ← or_throw (active_step p db) bad_request
  ok (q, a)

-- The SET of a decision with its approver.
abbrev pub decide : Env → ℕ → Option String → DecisionOutcome → Approval → Approval
decide env u comment outcome a = record a {
  decision = decided outcome;
  approver_user_id = some u;
  decision_at = some env.now;
  comment = or_null comment;
  is_active = false;
}

unfoldable pub accept_step :
    Env → ℕ → ℕ → Option String → Db → Result ((Advancement × Option Proposal) × Db)
unfolding proposal_with_active_step validate_approver_authority set_step advance_workflow
    find_proposal
accept_step env p u comment db = do
  (q, step) ← proposal_with_active_step p db
  validate_approver_authority db u q step
  (advancement, db') ←
      advance_workflow env p u (set_step step.id (decide env u comment accepted) db)
  ok ((advancement, find_proposal p db'), db')

-- `UPDATE … SET isActive = false WHERE proposalId = p AND decision = 'Pending'`
unfoldable pub deactivate_pending : ℕ → Db → Db
unfolding update_where
deactivate_pending p db = record db {
  approvals =
      update_where (λ a. a.proposal_id == p && is_pending a.decision)
        (λ a. record a { is_active = false }) db.approvals;
}

abbrev pub send_back : Status → Bool → Proposal → Proposal
send_back status editable q = record q {
  current_status = status;
  is_editable = editable;
  current_step_order = some 0;
}

unfoldable pub transition_step :
    Env → ℕ → ℕ → DecisionOutcome → Status → Bool → Option String → Db → Result Db
unfolding proposal_with_active_step validate_approver_authority set_step deactivate_pending
    set_proposal record_status
transition_step env p u outcome status editable comment db = do
  (q, step) ← proposal_with_active_step p db
  validate_approver_authority db u q step
  let stepped = deactivate_pending p (set_step step.id (decide env u comment outcome) db)
  ok (
      record_status env p u q.current_status status
        (decided_by outcome step.approver_role step.step_order)
        (set_proposal p (send_back status editable) stepped))

unfoldable pub reject_step : Env → ℕ → ℕ → Option String → Db → Result Db
unfolding transition_step
reject_step env p u comment db = transition_step env p u rejected Status.draft false comment db

unfoldable pub request_revision : Env → ℕ → ℕ → Option String → Db → Result Db
unfolding transition_step
request_revision env p u comment db =
    transition_step env p u needs_revision Status.needs_revision true comment db

abbrev pub mark_rejected : Env → ℕ → Approval → Approval
mark_rejected env u a = record a {
  decision = decided rejected;
  is_active = false;
  decision_at = some env.now;
  approver_user_id = some u;
}

unfoldable pub handle_rejection : Env → Proposal → Approval → ℕ → Db → Db
unfolding set_step deactivate_all set_proposal record_status
handle_rejection env q step u db =
    let stepped = deactivate_all q.id (set_step step.id (mark_rejected env u) db) in
    record_status env q.id u q.current_status Status.needs_revision
      (decided_by rejected step.approver_role step.step_order)
      (set_proposal q.id (send_back Status.needs_revision true) stepped)

-- What a handler does once its step has the decision `outcome`; `told` is the outcome that it
-- reports when the step was not accepted.
unfoldable pub conclude :
    Env
    → Proposal
    → Approval
    → ℕ
    → DecisionOutcome
    → DecisionOutcome
    → Db
    → Result (ActionResult × Db)
unfolding find_proposal advance_workflow handle_rejection
conclude env q step u accepted told db = do
  (advancement, db') ← advance_workflow env q.id u db
  ok (
    record {
      is_complete = advancement.is_complete;
      next_step = advancement.next_step;
      outcome = some accepted;
      proposal = find_proposal q.id db;
      project_data = advancement.project_data;
    },
    db',
  )
conclude env q step u _ told db = ok (
  record {
    is_complete = false;
    next_step = none;
    outcome = some told;
    proposal = some q;
    project_data = none;
  },
  handle_rejection env q step u db,
)

unfoldable pub handle_approval_step :
    Env → Proposal → Approval → ℕ → ActionData → Db → Result (ActionResult × Db)
unfolding set_step conclude
handle_approval_step env q step u data' db = do
  outcome ← or_throw data'.decision bad_request
  conclude env q step u outcome outcome (set_step step.id (decide env u data'.comment outcome) db)

abbrev pub or_accepted : Option DecisionOutcome → DecisionOutcome
or_accepted none = accepted
or_accepted (some o) = o

abbrev pub waiting : ActionResult
waiting = record {
  is_complete = false;
  next_step = none;
  outcome = none;
  proposal = none;
  project_data = none;
}

-- The SET of a vote step's final decision: no approver is written.
abbrev pub close_vote : Env → Option String → DecisionOutcome → Approval → Approval
close_vote env comment outcome a = record a {
  decision = decided outcome;
  is_active = false;
  decision_at = some env.now;
  comment = or_null comment;
}

unfoldable pub handle_vote_step :
    Env → Proposal → Approval → ℕ → ActionData → Db → Result (ActionResult × Db)
unfolding eligible_voters put set_step check_vote_threshold final_decision conclude
handle_vote_step env q step u data' db = do
  let voters = eligible_voters step.approver_role db.accounts
  require (mem_nat u voters) bad_request
  let votes = put u (or_accepted data'.decision) (votes_of step.vote_json)
  let voted = set_step step.id (λ a. record a { vote_json = some votes }) db
  met ← check_vote_threshold votes (length voters) step.vote_threshold step.vote_threshold_strategy
  let outcome = final_decision step.vote_threshold_strategy votes
  let done =
      conclude env q step u outcome rejected
        (set_step step.id (close_vote env data'.comment outcome) voted)
  if met then done else ok (waiting, voted)

abbrev pub data_of : Option FormData → FormData
data_of none = []
data_of (some d) = d

abbrev pub fields_of : Option (List SchemaField) → List SchemaField
fields_of none = []
fields_of (some fs) = fs

unfoldable pub handle_form_step :
    Env → Proposal → Approval → ℕ → ActionData → Db → Result (ActionResult × Db)
unfolding validate_form_submission attach_files set_step conclude
handle_form_step env q step u data' db = do
  let submitted = data_of data'.input
  validate_form_submission submitted step.dynamic_fields u db.files
  let stored = set_step step.id (λ a. record a { submitted_json = some submitted }) db
  let fs = fields_of (schema_fields step.dynamic_fields)
  let filed = record stored { files = attach_files fs submitted step.id stored.files }
  let outcome = or_accepted data'.decision
  conclude env q step u outcome rejected
      (set_step step.id (decide env u data'.comment outcome) filed)

unfoldable pub route :
    StepType → Env → Proposal → Approval → ℕ → ActionData → Db → Result (ActionResult × Db)
unfolding handle_approval_step handle_vote_step handle_form_step
route vote = handle_vote_step
route form = handle_form_step
route approval = handle_approval_step

unfoldable pub submit_action : Env → ℕ → ℕ → ActionData → Db → Result (ActionResult × Db)
unfolding proposal_with_active_step role_names can_user_act_on_step route
submit_action env p u data' db = do
  (q, step) ← proposal_with_active_step p db
  require (mem_str step.approver_role (role_names u db.accounts)) bad_request
  can_act ← can_user_act_on_step db step u q
  require can_act bad_request
  route step.step_type env q step u data' db
