-- ===== src/Workflow/Submission.antt =====
-- Submitting a proposal: `submitProposal`, `generateApprovalStepsFromRules` and
-- `resumeWorkflowFromLastIncompleteStep` of src/proposals/workflow.service.ts.
use crmp_backend.Base.{
  is_truthy, ℕ, suc, String, str_eq, Bool, true, false, not, ◌||◌, Option, none, some, List, [],
  ◌∷◌, ◌++◌, ◌==◌, if◌then◌else◌, leb, filter, update_where, sort_by, Json, null, Result, ok, err,
  bad_request, not_found, internal_server_error, require, or_throw, ◌>>=◌, ◌>>◌,
}
use crmp_backend.Workflow.Model.{
  Proposal, Approval, RoutingRule, Status, Decision, decided, pending, rejected, needs_revision,
  Note, initial_submission, resubmitted, Program, ug, pg, general, program_text, degree_text,
}
use crmp_backend.Workflow.Conditions.{EvaluationContext, evaluate_condition}
use crmp_backend.Workflow.Votes.{nonzero}
use crmp_backend.Workflow.Store.{Db, find_proposal, steps_of}
use crmp_backend.Workflow.Completion.{Env, set_proposal, set_step, record_status}

abbrev pub same_program : Option Program → Option Program → Bool
same_program (some ug) (some ug) = true
same_program (some pg) (some pg) = true
same_program (some general) (some general) = true
same_program _ _ = false

-- `s || null`
abbrev pub or_null : Option String → Option String
or_null none = none
or_null (some s) = if str_eq s "" then none else some s

unfoldable pub evaluation_context : Env → Proposal → String → EvaluationContext
evaluation_context env q amount = record {
  budget_amount = env.numbers.parse_float amount;
  degree_level = elim q.degree_level [ none ↦ none | some d ↦ some (degree_text d) ];
  proposal_program = elim q.proposal_program [ none ↦ none | some g ↦ some (program_text g) ];
}

abbrev json_or_null : Option Json → Json
json_or_null none = null
json_or_null (some j) = j

-- A rule with no condition is always included.
unfoldable pub rule_matches : Env → EvaluationContext → RoutingRule → Bool
unfolding evaluate_condition
rule_matches env context rule =
    not (is_truthy rule.branch_condition)
    || evaluate_condition env.numbers (json_or_null rule.branch_condition) context

-- The rules whose steps the proposal gets, in order.
unfoldable pub matching_rules : Env → EvaluationContext → List RoutingRule → List RoutingRule
unfolding filter sort_by rule_matches
matching_rules env context rules =
    filter (rule_matches env context) (sort_by (λ r. r.step_order) rules)

unfoldable pub step_from_rule : Env → ℕ → ℕ → ℕ → RoutingRule → Approval
step_from_rule env p first n rule = record {
  id = env.new_id n;
  proposal_id = p;
  routing_rule_id = some rule.id;
  step_order = rule.step_order;
  approver_role = rule.approver_role;
  approver_user_id = none;
  step_label = or_null rule.step_label;
  step_type = rule.step_type;
  dynamic_fields = rule.dynamic_fields;
  vote_threshold = nonzero rule.vote_threshold;
  vote_threshold_strategy = rule.vote_threshold_strategy;
  decision = pending;
  is_active = rule.step_order == first;
  comment = none;
  decision_at = none;
  vote_json = none;
  submitted_json = none;
  branch_key = rule.branch_key;
  condition_group = rule.condition_group;
  created_at = env.now;
}

unfoldable pub steps_from_rules : Env → ℕ → ℕ → ℕ → List RoutingRule → List Approval
unfolding step_from_rule
steps_from_rules env p first n [] = []
steps_from_rules env p first n (rule ∷ rest) =
    step_from_rule env p first n rule ∷ steps_from_rules env p first (suc n) rest

-- The steps of the matching rules; the first one's order is the order that starts active.
unfoldable pub start_steps : Env → ℕ → List RoutingRule → Result (List Approval)
unfolding steps_from_rules
start_steps env p [] = err internal_server_error
start_steps env p (rule ∷ rest) = ok (steps_from_rules env p rule.step_order 0 (rule ∷ rest))

abbrev pub some_rule : List RoutingRule → Bool
some_rule [] = false
some_rule (_ ∷ _) = true

unfoldable pub generate_approval_steps_from_rules : Env → Proposal → Db → Result Db
unfolding filter evaluation_context matching_rules start_steps
generate_approval_steps_from_rules env q db = do
  let rules = filter (λ r. same_program r.proposal_program q.proposal_program) db.routing_rules
  require (some_rule rules) internal_server_error
  amount ← or_throw q.budget_amount bad_request
  steps ← start_steps env q.id (matching_rules env (evaluation_context env q amount) rules)
  ok (record db { approvals = db.approvals ++ steps })

-- `decision === 'Rejected' || decision === 'Needs_Revision'`
abbrev pub is_failed : Decision → Bool
is_failed (decided rejected) = true
is_failed (decided needs_revision) = true
is_failed _ = false

-- The one of largest order, the earlier of two with the same: the head of a stable descending sort.
unfoldable pub latest : List Approval → Option Approval
latest [] = none
latest (a ∷ as') = elim (latest as') [
  | none ↦ some a
  | some b ↦ if leb b.step_order a.step_order then some a else some b
]

unfoldable pub deactivate_all : ℕ → Db → Db
unfolding update_where
deactivate_all p db = record db {
  approvals =
      update_where (λ a. a.proposal_id == p) (λ a. record a { is_active = false }) db.approvals;
}

abbrev pub reopen : Approval → Approval
reopen a = record a {
  decision = pending;
  is_active = true;
  decision_at = none;
  comment = none;
  approver_user_id = none;
  vote_json = none;
}

unfoldable pub resume_workflow_from_last_incomplete_step : ℕ → List Approval → Db → Result Db
unfolding latest filter deactivate_all set_step
resume_workflow_from_last_incomplete_step p existing db = do
  step ← or_throw (latest (filter (λ a. is_failed a.decision) existing)) bad_request
  ok (set_step step.id reopen (deactivate_all p db))

abbrev pub can_submit_from : Status → Bool
can_submit_from Status.draft = true
can_submit_from Status.needs_revision = true
can_submit_from _ = false

abbrev pub put_under_review : ℕ → Proposal → Proposal
put_under_review now q = record q {
  current_status = Status.under_review;
  is_editable = false;
  current_step_order = some 1;
  submitted_at = some now;
}

-- The branch on whether the proposal has steps already.
unfoldable pub prepare_steps : Env → Proposal → List Approval → Db → Result Db
unfolding generate_approval_steps_from_rules resume_workflow_from_last_incomplete_step
prepare_steps env q [] db = generate_approval_steps_from_rules env q db
prepare_steps env q (a ∷ as') db = resume_workflow_from_last_incomplete_step q.id (a ∷ as') db

abbrev pub submission_note : Status → Note
submission_note Status.draft = initial_submission
submission_note _ = resubmitted

unfoldable pub submit_proposal : Env → ℕ → ℕ → Db → Result (ℕ × Db)
unfolding find_proposal steps_of sort_by prepare_steps set_proposal record_status
submit_proposal env p u db = do
  q ← or_throw (find_proposal p db) not_found
  require (q.created_by == u) bad_request
  require (can_submit_from q.current_status) bad_request
  prepared ← prepare_steps env q (sort_by (λ a. a.step_order) (steps_of p db)) db
  ok (
    p,
    record_status env p u q.current_status Status.under_review (submission_note q.current_status)
        (set_proposal p (put_under_review env.now) prepared),
  )
