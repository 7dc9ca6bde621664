-- ===== src/Workflow/Outcomes.antt =====
-- What the calls of src/proposals/workflow.service.ts do to a proposal, in databases that calls reach.
use crmp_backend.Base.{
  ℕ, ◌≡◌, refl, ◌∙◌, sym, ap, subst, String, Bool, true, false, Bool-cases, Option, none, some,
  Option-cases, inl, inr, ◌⊎◌, [], if◌then◌else◌, ◌==◌, ok, err, bad_request, >>=-eq-ok, >>=-err,
  ok-injective, or_throw-eq-ok, not_found, arith, All, All-map, All-Mem, find-Mem, filter-Mem, Memᴰ,
  ◌↔◌, ==_iff,
}
use crmp_backend.Workflow.Model.{
  Proposal, Approval, Status, DecisionOutcome, accepted, pending, rejected, needs_revision,
}
use crmp_backend.Workflow.Store.{Db, find_proposal, steps_of}
use crmp_backend.Workflow.Approvers.{validate_approver_authority}
use crmp_backend.Workflow.Completion.{
  Env, Advancement, advance_workflow, complete_workflow, next_pending, set_step, set_proposal,
  approve, record_status, create_project_from_approved_proposal,
}
use crmp_backend.Workflow.Actions.{
  ActionData, active_step, proposal_with_active_step, transition_step, accept_step, reject_step,
  request_revision, submit_action, decide, send_back, deactivate_pending,
}
use crmp_backend.Workflow.Timeline.{in_progress, get_step_status}
use crmp_backend.Workflow.Consistency.{status_in}
use crmp_backend.Workflow.Consistency.Rows.{
  status_in-update_where_self, status_in-update_where_same,
}
use crmp_backend.Workflow.Consistency.Acting.{
  proposal_with_active_step-IsActing, find_proposal-status_in,
}
use crmp_backend.Workflow.Reach.{
  Reaches, Reaches-IsConsistent, IsConsistent-start, next, rejected_step, revision_requested,
  active_only_under_review,
}

status_found :
    (p : ℕ) (db : Db) (s : Status)
    → status_in db.proposals p ≡ some s
    → (q : Proposal) × (find_proposal p db ≡ some q)
unfolding status_in find_proposal
status_found p db s is = elim (Option-cases (find_proposal p db)) [
  | inl e ↦ ground arith
  | inr h ↦ h
]

no_active_step :
    (db db' : Db) (p : ℕ) (s : Status)
    → db.approvals ≡ []
    → Reaches db db'
    → status_in db'.proposals p ≡ some s
    → (s ≡ Status.under_review → ⊥)
    → active_step p db' ≡ none
unfolding active_step steps_of
no_active_step db db' p s empty steps is apart = elim (Option-cases (active_step p db')) [
  | inl e ↦ e
  | inr (a, e) ↦
      let (m, on) = find-Mem (λ b. b.is_active) (steps_of p db') e in
      let (n, mine) = filter-Mem (λ b. b.proposal_id == p) db'.approvals m in
      let (under, _) =
        All-Mem _ (active_only_under_review db db' p s empty steps is) n
          ((==_iff a.proposal_id p).0 mine) on in
      absurd (apart under)
]

nothing_active :
    (p : ℕ) (db : Db) {q : Proposal}
    → find_proposal p db ≡ some q
    → active_step p db ≡ none
    → proposal_with_active_step p db ≡ err bad_request
unfolding proposal_with_active_step
nothing_active p db found e = rw (found, e) refl

-- In a database that calls reach from one with no steps, every way to decide a step of a proposal that
-- is not under review is refused (bad request).
pub decided_only_under_review :
    (db db' : Db) (p : ℕ) (s : Status)
    → db.approvals ≡ []
    → Reaches db db'
    → status_in db'.proposals p ≡ some s
    → (s ≡ Status.under_review → ⊥)
    → (env : Env) (u : ℕ) (comment : Option String) (d : ActionData)
    → (accept_step env p u comment db' ≡ err bad_request)
      × (reject_step env p u comment db' ≡ err bad_request)
      × (request_revision env p u comment db' ≡ err bad_request)
      × (submit_action env p u d db' ≡ err bad_request)
unfolding accept_step reject_step request_revision transition_step submit_action
decided_only_under_review db db' p s empty steps is apart env u comment d =
    let refused : proposal_with_active_step p db' ≡ err bad_request =
      nothing_active p db' (status_found p db' s is).1
        (no_active_step db db' p s empty steps is apart) in
    (>>=-err _ _ refused, >>=-err _ _ refused, >>=-err _ _ refused, >>=-err _ _ refused)

-- In a database that calls reach from one with no steps, the timeline shows a step of an existing
-- proposal as in progress exactly when the step is active.
pub in_progress_iff_active :
    (db db' : Db) (p : ℕ) (s : Status) (a : Approval)
    → db.approvals ≡ []
    → Reaches db db'
    → status_in db'.proposals p ≡ some s
    → Memᴰ a db'.approvals
    → a.proposal_id ≡ p
    → (get_step_status a ≡ in_progress) ↔ (a.is_active ≡ true)
unfolding get_step_status
in_progress_iff_active db db' p s a empty steps is m mine =
    let only : a.is_active ≡ true → a.decision ≡ pending =
      λ on. (All-Mem _ (active_only_under_review db db' p s empty steps is) m mine on).1 in
    (λ e. ground arith, λ on. rw (only on, on) refl)

proposal_with_active_step-status :
    (p : ℕ) (db : Db) (q : Proposal) (step : Approval)
    → proposal_with_active_step p db ≡ ok (q, step)
    → status_in db.proposals p ≡ some q.current_status
unfolding proposal_with_active_step
proposal_with_active_step-status p db q step h =
    let (r, found, h) = or_throw-eq-ok (find_proposal p db) not_found _ h in
    let (_, _, h) = or_throw-eq-ok (active_step p db) bad_request _ h in
    find_proposal-status_in p db found ∙ ap some (same_status (ok-injective h))
  where
    same_status :
        {a b : Proposal} {x y : Approval}
        → ◌≡◌ {A = Proposal × Approval} (a, x) (b, y)
        → a.current_status ≡ b.current_status
    same_status e = ap (λ (c : Proposal × Approval). c.0.current_status) e

transition_step-status :
    (env : Env) (p u : ℕ) (outcome : DecisionOutcome) (status : Status) (editable : Bool)
    (comment : Option String) (db db' : Db)
    → transition_step env p u outcome status editable comment db ≡ ok db'
    → status_in db'.proposals p ≡ some status
unfolding transition_step set_proposal set_step record_status deactivate_pending
transition_step-status env p u outcome status editable comment db db' h =
    let ((q, step), opened, h) = >>=-eq-ok (proposal_with_active_step p db) _ h in
    let (_, _, h) = >>=-eq-ok (validate_approver_authority db u q step) _ h in
    let is = (proposal_with_active_step-status p db q step opened) in
    subst (λ d. status_in d.proposals p ≡ some status) (ok-injective h)
      (status_in-update_where_self p (send_back status editable) (λ r. refl) status db.proposals
        q.current_status (λ r. refl) is)

stopped :
    (db db' : Db) (p : ℕ) (s : Status)
    → db.approvals ≡ []
    → Reaches db db'
    → status_in db'.proposals p ≡ some s
    → (s ≡ Status.under_review → ⊥)
    → All (λ a. a.proposal_id ≡ p → a.is_active ≡ false) db'.approvals
stopped db db' p s empty steps is apart =
    All-map db'.approvals (λ a k mine. inactive a.is_active (λ on. apart (k mine on).0))
      (active_only_under_review db db' p s empty steps is)
  where
    inactive : (b : Bool) → (b ≡ true → ⊥) → b ≡ false
    inactive b off = elim (Bool-cases b) [ inl e ↦ absurd (off e) | inr e ↦ e ]

-- In databases that calls reach from one with no steps, a step that is rejected makes its proposal a
-- draft, and a request for revision gives it the status Needs_Revision; no step of it is active then.
pub failed_step_stops :
    (db db' db'' : Db) (env : Env) (p u : ℕ) (comment : Option String) (s : Status)
    → db.approvals ≡ []
    → Reaches db db'
    → ((reject_step env p u comment db' ≡ ok db'') × (s ≡ Status.draft))
      ⊎ ((request_revision env p u comment db' ≡ ok db'') × (s ≡ Status.needs_revision))
    → (status_in db''.proposals p ≡ some s)
      × All (λ a. a.proposal_id ≡ p → a.is_active ≡ false) db''.approvals
unfolding reject_step request_revision
failed_step_stops db db' db'' env p u comment s empty steps (inl (h, e)) =
    let is : status_in db''.proposals p ≡ some s =
      transition_step-status env p u rejected Status.draft false comment db' db'' h
      ∙ ap some (sym e) in
    (is, stopped db db'' p s empty (next steps (rejected_step env p u comment h)) is (λ k. cc))
failed_step_stops db db' db'' env p u comment s empty steps (inr (h, e)) =
    let is : status_in db''.proposals p ≡ some s =
      transition_step-status env p u needs_revision Status.needs_revision true comment db' db'' h
      ∙ ap some (sym e) in
    (is, stopped db db'' p s empty (next steps (revision_requested env p u comment h)) is (λ k. cc))

-- What an advancement says of its proposal, which had the status `s`.
abbrev pub Tells : ℕ → Status → Advancement × Db → Type 0
Tells p s c = status_in c.1.proposals p ≡ some (if c.0.is_complete then Status.approved else s)

complete_workflow-Tells :
    (env : Env) (p u : ℕ) (db db' : Db) (r : Advancement) (s : Status)
    → complete_workflow env p u db ≡ ok (r, db')
    → Tells p s (r, db')
unfolding complete_workflow set_proposal create_project_from_approved_proposal record_status
complete_workflow-Tells env p u db db' r s h =
    let (q, found, h) = or_throw-eq-ok (find_proposal p db) not_found _ h in
    subst (Tells p s) (ok-injective h) (
      status_in-update_where_same q.id (λ k. record k { project_id = some (env.new_id 0) })
        (λ k. refl) (set_proposal p approve db).proposals p (λ k. refl)
      ∙ status_in-update_where_self p approve (λ k. refl) Status.approved db.proposals
          q.current_status (λ k. refl) (find_proposal-status_in p db found))

pub advance_workflow-Tells :
    (env : Env) (p u : ℕ) (db db' : Db) (r : Advancement) (s : Status)
    → status_in db.proposals p ≡ some s
    → advance_workflow env p u db ≡ ok (r, db')
    → Tells p s (r, db')
unfolding advance_workflow set_proposal set_step
advance_workflow-Tells env p u db db' r s is h = elim (Option-cases (next_pending p db)) [
  | inl none_left ↦
      complete_workflow-Tells env p u db db' r s (rw (none_left, advance_workflow) at h)
  | inr (n, found) ↦ subst (Tells p s) (ok-injective (rw (found, advance_workflow) at h)) (
      status_in-update_where_same p (λ k. record k { current_step_order = some n.step_order })
        (λ k. refl) db.proposals p (λ k. refl)
      ∙ is)
]

-- In databases that calls reach from one with no steps, a step that is accepted leaves its proposal
-- approved if the call says that the workflow is complete, and under review otherwise.
pub accepted_step_tells :
    (db db' db'' : Db) (env : Env) (p u : ℕ) (comment : Option String) (r : Advancement)
    (told : Option Proposal)
    → db.approvals ≡ []
    → Reaches db db'
    → accept_step env p u comment db' ≡ ok ((r, told), db'')
    → status_in db''.proposals p
      ≡ some (if r.is_complete then Status.approved else Status.under_review)
unfolding accept_step set_step
accepted_step_tells db db' db'' env p u comment r told empty steps h =
    let ((q, step), opened, h) = >>=-eq-ok (proposal_with_active_step p db') _ h in
    let (_, _, h) = >>=-eq-ok (validate_approver_authority db' u q step) _ h in
    let ((adv, db2), advanced, h) =
      >>=-eq-ok (advance_workflow env p u (set_step step.id (decide env u comment accepted) db')) _
        h in
    let (acting, id) =
      proposal_with_active_step-IsActing p db' q step
        (Reaches-IsConsistent (IsConsistent-start db empty) steps) opened in
    let under : status_in db'.proposals p ≡ some Status.under_review =
      ap (status_in db'.proposals) (sym id) ∙ acting.under in
    subst (λ (c : (Advancement × Option Proposal) × Db). Tells p Status.under_review (c.0.0, c.1))
      (ok-injective h)
      (advance_workflow-Tells env p u (set_step step.id (decide env u comment accepted) db') db2 adv
        Status.under_review under advanced)
