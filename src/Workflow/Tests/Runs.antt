-- ===== src/Workflow/Tests/Runs.antt =====
-- Runs of the workflow, and the theorems about them at these runs.
use crmp_backend.Base.{
  false, bad_request, inl, ◌↔◌, if◌then◌else◌, ◌≡◌, refl, true, Option, none, some, [], ◌∷◌, All,
  Result, ok, err, arith, map, find, Memᴰ,
}
use crmp_backend.Workflow.Model.{
  Approval, Status, approval, pending, decided, DecisionOutcome, Proposal, rejected, accepted,
}
use crmp_backend.Workflow.Store.{Db}
use crmp_backend.Workflow.Submission.{submit_proposal, is_failed, step_from_rule}
use crmp_backend.Workflow.Actions.{
  ActionData, ActionResult, active_step, accept_step, reject_step, request_revision, submit_action,
  waiting,
}
use crmp_backend.Workflow.Consistency.{IsClosed, status_in}
use crmp_backend.Workflow.Consistency.Generating.{HasFreshIds}
use crmp_backend.Workflow.Reach.{
  submitted, accepted_step, rejected_step, acted, Reaches, here, next, approved_only_once_accepted,
  active_only_under_review, one_failed_step,
}
use crmp_backend.Workflow.Outcomes.{
  decided_only_under_review, in_progress_iff_active, failed_step_stops, accepted_step_tells,
}
use crmp_backend.Workflow.Acted.{told_status, acted_status}
use crmp_backend.Workflow.Timeline.{in_progress, get_step_status}
use crmp_backend.Workflow.Completion.{Advancement}
use crmp_backend.Workflow.Tests.{env_at, start, rule}

-- The definitions that a run computes with.
runs : Unit {0}
unfolding submit_proposal accept_step reject_step submit_action status_in
runs = tt

abbrev state {ℓ} : {A : Type ℓ} → Result (A × Db) → Db
state (ok (_, db)) = db
state (err _) = start

abbrev state_of : Result Db → Db
state_of (ok db) = db
state_of (err _) = start

abbrev vote_for : DecisionOutcome → ActionData
vote_for o = record { decision = some o; input = none; comment = none }

abbrev submitted_db : Db
unfolding runs
submitted_db = state (submit_proposal (env_at 100) 7 1 start)

abbrev accepted_db : Db
unfolding runs
accepted_db = state (accept_step (env_at 200) 7 2 none submitted_db)

abbrev voted_db : Db
unfolding runs
voted_db = state (submit_action (env_at 300) 7 3 (vote_for accepted) accepted_db)

abbrev final_db : Db
unfolding runs
final_db = state (submit_action (env_at 400) 7 4 (vote_for accepted) voted_db)

decisions : map (λ a. a.decision) final_db.approvals ≡ decided accepted ∷ decided accepted ∷ []
unfolding runs
decisions = refl

statuses : status_in final_db.proposals 7 ≡ some Status.approved
unfolding runs
statuses = refl

start_fresh : HasFreshIds (env_at 100) start
start_fresh = record { distinct = λ m n e. omega arith; unused = λ n. tt }

run : Reaches start final_db
unfolding runs
run =
    next {db' = voted_db}
      (next {db' = accepted_db}
        (next {db' = submitted_db} (next here (submitted (env_at 100) 7 1 start_fresh refl))
          (accepted_step (env_at 200) 7 2 none refl))
        (acted (env_at 300) 7 3 (vote_for accepted) refl))
      (acted (env_at 400) 7 4 (vote_for accepted) refl)

approved_only_once_accepted_example : All (λ a. a.proposal_id ≡ 7 → IsClosed a) final_db.approvals
approved_only_once_accepted_example = approved_only_once_accepted start final_db 7 refl run statuses

active_only_under_review_example :
    All
      (λ a.
        a.proposal_id ≡ 7
        → a.is_active ≡ true
        → (Status.approved ≡ Status.under_review) × (a.decision ≡ pending))
      final_db.approvals
active_only_under_review_example =
    active_only_under_review start final_db 7 Status.approved refl run statuses

abbrev rejected_db : Db
unfolding runs
rejected_db = state_of (reject_step (env_at 300) 7 3 none accepted_db)

rejected_run : Reaches start rejected_db
unfolding runs
rejected_run =
    next {db' = accepted_db}
      (next {db' = submitted_db} (next here (submitted (env_at 100) 7 1 start_fresh refl))
        (accepted_step (env_at 200) 7 2 none refl))
      (rejected_step (env_at 300) 7 3 none refl)

abbrev step_or : Option Approval → Approval
step_or none = step_from_rule (env_at 0) 7 1 0 (rule 61 1 "RAD" approval)
step_or (some a) = a

abbrev failed_step : Approval
unfolding runs
failed_step = step_or (find (λ a. is_failed a.decision) rejected_db.approvals)

listed : Memᴰ failed_step rejected_db.approvals
unfolding runs find
listed = Memᴰ.tail (Memᴰ.head refl)

one_failed_step_example : failed_step ≡ failed_step
unfolding runs find
one_failed_step_example =
    one_failed_step start rejected_db 7 failed_step failed_step refl rejected_run refl listed listed
      refl refl refl refl

review_run : Reaches start accepted_db
unfolding runs
review_run =
    next {db' = submitted_db} (next here (submitted (env_at 100) 7 1 start_fresh refl))
      (accepted_step (env_at 200) 7 2 none refl)

first_run : Reaches start submitted_db
unfolding runs
first_run = next here (submitted (env_at 100) 7 1 start_fresh refl)

decided_only_under_review_example :
    (accept_step (env_at 500) 7 3 none final_db ≡ err bad_request)
    × (reject_step (env_at 500) 7 3 none final_db ≡ err bad_request)
    × (request_revision (env_at 500) 7 3 none final_db ≡ err bad_request)
    × (submit_action (env_at 500) 7 3 (vote_for rejected) final_db ≡ err bad_request)
decided_only_under_review_example =
    decided_only_under_review start final_db 7 Status.approved refl run statuses (λ e. cc)
      (env_at 500) 3 none (vote_for rejected)

in_progress_iff_active_example :
    (get_step_status failed_step ≡ in_progress) ↔ (failed_step.is_active ≡ true)
unfolding runs
in_progress_iff_active_example =
    in_progress_iff_active start rejected_db 7 Status.draft failed_step refl rejected_run refl
      listed refl

failed_step_stops_example :
    (status_in rejected_db.proposals 7 ≡ some Status.draft)
    × All (λ a. a.proposal_id ≡ 7 → a.is_active ≡ false) rejected_db.approvals
unfolding runs
failed_step_stops_example =
    failed_step_stops start accepted_db rejected_db (env_at 300) 7 3 none Status.draft refl
      review_run (inl (refl, refl))

abbrev accepted_result : Advancement × Option Proposal
unfolding runs
accepted_result = result_or (accept_step (env_at 200) 7 2 none submitted_db)
  where
    result_or : Result ((Advancement × Option Proposal) × Db) → Advancement × Option Proposal
    result_or (ok (r, _)) = r
    result_or (err _) =
        (record { next_step = none; is_complete = false; project_data = none }, none)

accepted_step_tells_example :
    status_in accepted_db.proposals 7
    ≡ some (if accepted_result.0.is_complete then Status.approved else Status.under_review)
unfolding runs
accepted_step_tells_example =
    accepted_step_tells start submitted_db accepted_db (env_at 200) 7 2 none accepted_result.0
      accepted_result.1 refl first_run refl

abbrev voted_result : ActionResult
unfolding runs
voted_result = result_or (submit_action (env_at 400) 7 4 (vote_for accepted) voted_db)
  where
    result_or : Result (ActionResult × Db) → ActionResult
    result_or (ok (r, _)) = r
    result_or (err _) = waiting

vote_run : Reaches start voted_db
unfolding runs
vote_run = next {db' = accepted_db} review_run (acted (env_at 300) 7 3 (vote_for accepted) refl)

acted_status_example : status_in final_db.proposals 7 ≡ some (told_status voted_result)
unfolding runs
acted_status_example =
    acted_status start voted_db final_db (env_at 400) 7 4 (vote_for accepted) voted_result refl
      vote_run refl

abbrev vote_step : Approval
unfolding runs active_step
vote_step = step_or (active_step 7 accepted_db)

abbrev open_result : ActionResult
unfolding runs
open_result = result_or (submit_action (env_at 300) 7 3 (vote_for accepted) accepted_db)
  where
    result_or : Result (ActionResult × Db) → ActionResult
    result_or (ok (r, _)) = r
    result_or (err _) = waiting
