-- ===== src/Workflow/Timeline.antt =====
-- The timeline that the frontend shows: `getApprovalTimelineForFrontend`, `buildApprovalTimeline`,
-- `getUserAction` and `getStepStatus` of src/proposals/workflow.service.ts.
use crmp_backend.Base.{
  ℕ, String, Bool, false, ◌&&◌, Option, none, some, List, [], ◌∷◌, ◌==◌, if◌then◌else◌, get,
  sort_by, is_some, Result, ok, not_found, or_throw, ◌>>=◌,
}
use crmp_backend.Workflow.Model.{
  Approval, Proposal, Decision, decided, DecisionOutcome, StepType, approval, vote, form,
  FormSchema, FormData,
}
use crmp_backend.Workflow.Votes.{VoteData, votes_of, build_vote_data}
use crmp_backend.Workflow.Store.{Db, find_proposal, steps_of}
use crmp_backend.Workflow.Approvers.{is_pending, can_user_act_on_step}
use crmp_backend.Workflow.Submission.{or_null}

pub data StepStatus : Type 0 where
  pending in_progress completed : StepStatus

pub data UserAction : Type 0 where
  approved rejected needs_revision submitted : UserAction

unfoldable pub get_step_status : Approval → StepStatus
get_step_status step =
    if is_pending step.decision
    then if step.is_active then in_progress else StepStatus.pending
    else completed

abbrev pub action_of : DecisionOutcome → UserAction
action_of DecisionOutcome.accepted = UserAction.approved
action_of DecisionOutcome.rejected = UserAction.rejected
action_of DecisionOutcome.needs_revision = UserAction.needs_revision

abbrev is_user : ℕ → Option ℕ → Bool
is_user u none = false
is_user u (some v) = v == u

abbrev map_action : Option DecisionOutcome → Option UserAction
map_action none = none
map_action (some o) = some (action_of o)

abbrev decided_action : Decision → Option UserAction
decided_action Decision.pending = none
decided_action (decided o) = some (action_of o)

unfoldable pub action_at : StepType → Approval → ℕ → Option UserAction
unfolding get
action_at vote step u = map_action (get u (votes_of step.vote_json))
action_at form step u =
    if is_user u step.approver_user_id && is_some step.submitted_json then some submitted else none
action_at approval step u =
    if is_user u step.approver_user_id then decided_action step.decision else none

unfoldable pub get_user_action : Approval → ℕ → Option UserAction
unfolding action_at
get_user_action step u = action_at step.step_type step u

-- The part of a step that its type decides.
pub record DecisionData : Type 0 where
  pub value : Option DecisionOutcome
  pub by : Option ℕ
  pub at : Option ℕ
  pub comment : Option String

pub record Submission : Type 0 where
  pub submitted_by : Option ℕ
  pub submitted_at : Option ℕ
  pub values : FormData

pub data StepData : Type 0 where
  decision : DecisionData → StepData
  vote_data : VoteData → StepData
  form_data : Option FormSchema → Option Submission → StepData

abbrev outcome_of : Decision → Option DecisionOutcome
outcome_of Decision.pending = none
outcome_of (decided o) = some o

abbrev submission_of : Approval → Option FormData → Option Submission
submission_of a none = none
submission_of a (some values) =
    some
      (record { submitted_by = a.approver_user_id; submitted_at = a.decision_at; values = values })

unfoldable pub step_data : StepType → Approval → StepData
unfolding build_vote_data
step_data approval a = decision (record {
  value = outcome_of a.decision;
  by = a.approver_user_id;
  at = a.decision_at;
  comment = or_null a.comment;
})
step_data vote a = vote_data (build_vote_data a)
step_data form a = form_data a.dynamic_fields (submission_of a a.submitted_json)

-- `stepLabel` is `none` where the frontend gets the text `Step n`.
pub record TimelineStep : Type 0 where
  pub id : ℕ
  pub step_order : ℕ
  pub step_label : Option String
  pub step_type : StepType
  pub approver_role : String
  pub status : StepStatus
  pub is_active : Bool
  pub is_final : Bool
  pub can_act : Bool
  pub user_action : Option UserAction
  pub details : StepData

pub record Timeline : Type 0 where
  pub proposal_id : ℕ
  pub current_step_order : Option ℕ
  pub steps : List TimelineStep

-- The order of the last of the rows; `none` if there is none.
abbrev pub last_order : List Approval → Option ℕ
last_order [] = none
last_order (a ∷ []) = some a.step_order
last_order (a ∷ b ∷ rest) = last_order (b ∷ rest)

abbrev is_order : Option ℕ → ℕ → Bool
is_order none n = false
is_order (some m) n = n == m

unfoldable pub timeline_step : Option ℕ → ℕ → Bool → Approval → TimelineStep
unfolding get_step_status get_user_action step_data
timeline_step last u can_act a = record {
  id = a.id;
  step_order = a.step_order;
  step_label = or_null a.step_label;
  step_type = a.step_type;
  approver_role = a.approver_role;
  status = get_step_status a;
  is_active = a.is_active;
  is_final = is_order last a.step_order;
  can_act = can_act;
  user_action = get_user_action a u;
  details = step_data a.step_type a;
}

unfoldable pub timeline_steps :
    Option ℕ → Db → Proposal → ℕ → List Approval → Result (List TimelineStep)
unfolding timeline_step can_user_act_on_step
timeline_steps last db q u [] = ok []
timeline_steps last db q u (a ∷ rest) = do
  can_act ← can_user_act_on_step db a u q
  steps ← timeline_steps last db q u rest
  ok (timeline_step last u can_act a ∷ steps)

unfoldable pub build_approval_timeline : Db → List Approval → Proposal → ℕ → Result Timeline
unfolding timeline_steps
build_approval_timeline db approvals q u = do
  steps ← timeline_steps (last_order approvals) db q u approvals
  ok (record { proposal_id = q.id; current_step_order = q.current_step_order; steps = steps })

unfoldable pub get_approval_timeline_for_frontend : ℕ → ℕ → Db → Result Timeline
unfolding find_proposal steps_of sort_by build_approval_timeline
get_approval_timeline_for_frontend p u db = do
  q ← or_throw (find_proposal p db) not_found
  build_approval_timeline db (sort_by (λ a. a.step_order) (steps_of p db)) q u
