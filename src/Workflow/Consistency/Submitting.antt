-- ===== src/Workflow/Consistency/Submitting.antt =====
-- Submitting a proposal, for the first time or again, keeps the steps consistent.
use crmp_backend.Base.{
  ℕ, ◌≡◌, ◌≢◌, refl, sym, ap, ◌∙◌, subst, true, false, Option, some, List, [], ◌∷◌, ◌==◌, arith,
  inl, inr, ==_iff, filter, update_where, All-Mem, All-update_where, HasUnique-only, sort_by, head?,
  All, All-map, All-universal, HasUnique-update_where, Memᴰ, filter-Mem, filter-nil, sort_by-Mem,
  sort_by-nil, ok, bad_request, not_found, or_throw-eq-ok, require-eq-ok, >>=-eq-ok, state_of_ok,
  ok-injective,
}
use crmp_backend.Workflow.Model.{
  Proposal, Approval, Status, Decision, accepted, rejected, needs_revision, pending, decided, Note,
}
use crmp_backend.Workflow.Store.{Db, find_proposal, steps_of}
use crmp_backend.Workflow.Completion.{Env, set_step, set_proposal, record_status}
use crmp_backend.Workflow.Submission.{
  is_failed, latest, deactivate_all, reopen, resume_workflow_from_last_incomplete_step,
  can_submit_from, put_under_review, prepare_steps, submit_proposal, submission_note,
}
use crmp_backend.Workflow.Consistency.{IsStopped, IsStepOf, IsConsistent, status_in}
use crmp_backend.Workflow.Consistency.Rows.{
  Splits, AreSteps-Splits, Splits-update_where, status_in-update_where_self,
  status_in-update_where_ne,
}
use crmp_backend.Workflow.Consistency.Advance.{reassign-IsConsistent}
use crmp_backend.Workflow.Consistency.Acting.{find_proposal-id, find_proposal-status_in}
use crmp_backend.Workflow.Consistency.Generating.{
  HasFreshIds, latest-Mem, IsOpen, IsPrepared, generate-IsPrepared,
}

-- A stopped step that did not fail is open.
stopped_IsOpen : (i : ℕ) (a : Approval) → IsStopped i a → a.id ≢ i → IsOpen a
stopped_IsOpen i a (off, only) ne = open_at a.decision refl
  where
    open_at : (d : Decision) → a.decision ≡ d → IsOpen a
    open_at pending e = inl e
    open_at (decided accepted) e = inr (e, off)
    open_at (decided rejected) e = absurd (ne (only (rw e refl)))
    open_at (decided needs_revision) e = absurd (ne (only (rw e refl)))

resume-IsPrepared :
    (q : Proposal) (existing : List Approval) (db : Db) {prepared : Db} (c : IsConsistent db)
    → ((a : Approval) → Memᴰ a existing → Memᴰ a db.approvals × (a.proposal_id ≡ q.id))
    → All (Splits q.id c.failing (status_in db.proposals) (IsStopped (c.failing q.id))) db.approvals
    → resume_workflow_from_last_incomplete_step q.id existing db ≡ ok prepared
    → IsPrepared q.id c.failing db prepared
unfolding resume_workflow_from_last_incomplete_step deactivate_all set_step
resume-IsPrepared q existing db c own rows e =
    let i = c.failing q.id in
    let st = status_in db.proposals in
    let (step, found, e') =
      or_throw-eq-ok (latest (filter (λ a. is_failed a.decision) existing)) bad_request _ e in
    let (in_existing, failed) = filter-Mem _ existing (latest-Mem _ found) in
    let (m, mine) = own step in_existing in
    let same : step.id ≡ i = ((All-Mem _ rows m).0 mine).1 failed in
    let off = λ (a : Approval). record a { is_active = false } in
    let stopped = update_where (λ a. a.proposal_id == q.id) off db.approvals in
    let own_id : All (λ a. (a.id == step.id) ≡ true → a.proposal_id ≡ q.id) db.approvals =
      All-map db.approvals
        (λ a only t. ap (λ b. b.proposal_id) (only ((==_iff a.id step.id).0 t)) ∙ mine)
        (HasUnique-only (λ a. a.id) db.approvals c.unique m) in
    subst (IsPrepared q.id c.failing db) (ok-injective e') (record {
      steps =
          Splits-update_where q.id c.failing st (IsStopped i) IsOpen (λ a. a.id == step.id) reopen
            stopped (λ a. refl)
            (All-update_where (λ a. a.proposal_id == q.id) off db.approvals
              (λ a t k e. (k e, λ _. inl refl)) (λ a t k e. (k e, λ _. inl refl)) own_id)
            (λ a at_q t k. stopped_IsOpen i a k (λ id. absurd (ground arith)))
            (Splits-update_where q.id c.failing st (IsStopped i) (IsStopped i)
              (λ a. a.proposal_id == q.id) off db.approvals (λ a. refl)
              (All-universal _ db.approvals
                (λ a t. ((==_iff a.proposal_id q.id).0 t, λ k. (refl, k.1))))
              (λ a at_q t k. k) rows);
      unique =
          HasUnique-update_where (λ a. a.id) (λ a. a.id == step.id) reopen stopped (λ a. refl)
            (HasUnique-update_where (λ a. a.id) (λ a. a.proposal_id == q.id) off db.approvals
              (λ a. refl) c.unique);
      proposals = refl;
    })

prepare-IsPrepared :
    (env : Env) (q : Proposal) (existing : List Approval) (db : Db) {prepared : Db}
    (c : IsConsistent db)
    → HasFreshIds env db
    → ((a : Approval) → Memᴰ a existing → Memᴰ a db.approvals × (a.proposal_id ≡ q.id))
    → (existing ≡ [] → All (λ a. (a.proposal_id == q.id) ≡ false) db.approvals)
    → All (Splits q.id c.failing (status_in db.proposals) (IsStopped (c.failing q.id))) db.approvals
    → prepare_steps env q existing db ≡ ok prepared
    → IsPrepared q.id c.failing db prepared
unfolding prepare_steps
prepare-IsPrepared env q [] db c fresh own none_yet rows e =
    generate-IsPrepared env q db c fresh (none_yet refl) e
prepare-IsPrepared env q (a ∷ rest) db c fresh own none_yet rows e =
    resume-IsPrepared q (a ∷ rest) db c own rows e

-- A proposal that may be submitted has only stopped steps.
submittable-IsStopped :
    (p i : ℕ) (failing : ℕ → ℕ) (st : ℕ → Option Status) (s : Status) (xs : List Approval)
    → can_submit_from s ≡ true
    → All (Splits p failing st (IsStepOf i (some s))) xs
    → All (Splits p failing st (IsStopped i)) xs
submittable-IsStopped p i failing st Status.draft xs t h = h
submittable-IsStopped p i failing st Status.needs_revision xs t h = h
submittable-IsStopped p i failing st Status.under_review xs t h = cc
submittable-IsStopped p i failing st Status.approved xs t h = cc
submittable-IsStopped p i failing st Status.rejected xs t h = cc

review-IsConsistent :
    (env : Env) (p u : ℕ) (old s : Status) (note : Note) (failing : ℕ → ℕ) (db prepared : Db)
    → status_in db.proposals p ≡ some s
    → IsPrepared p failing db prepared
    → IsConsistent (
        record_status env p u old Status.under_review note
          (set_proposal p (put_under_review env.now) prepared))
unfolding record_status set_proposal
review-IsConsistent env p u old s note failing db prepared is h =
    reassign-IsConsistent p failing db.proposals
      (record_status env p u old Status.under_review note
        (set_proposal p (put_under_review env.now) prepared))
      (failing p) {s = Status.under_review}
      (rw h.proposals (
        status_in-update_where_self p (put_under_review env.now) (λ q. refl) Status.under_review
          db.proposals s (λ q. refl) is))
      (rw h.proposals
        (status_in-update_where_ne p (put_under_review env.now) (λ q. refl) db.proposals))
      h.steps h.unique

pub submit_proposal-IsConsistent :
    (env : Env) (p u : ℕ) (db : Db) {r : ℕ} {db' : Db}
    → IsConsistent db
    → HasFreshIds env db
    → submit_proposal env p u db ≡ ok (r, db')
    → IsConsistent db'
unfolding submit_proposal steps_of
submit_proposal-IsConsistent env p u db {r} {db'} c fresh e =
    let existing = sort_by (λ a. a.step_order) (steps_of p db) in
    let (q, found, e1) = or_throw-eq-ok (find_proposal p db) not_found _ e in
    let (_, e2) = require-eq-ok (q.created_by == u) bad_request _ e1 in
    let (may, e3) = require-eq-ok (can_submit_from q.current_status) bad_request _ e2 in
    let (prepared, done, e4) = >>=-eq-ok (prepare_steps env q existing db) _ e3 in
    let id : q.id ≡ p = find_proposal-id p db found in
    let is : status_in db.proposals q.id ≡ some q.current_status =
      ap (status_in db.proposals) id ∙ find_proposal-status_in p db found in
    let ready =
      prepare-IsPrepared env q existing db c fresh
        (λ a m.
          let (n, t) = filter-Mem _ db.approvals (sort_by-Mem (λ b. b.step_order) _ m) in
          (n, (==_iff a.proposal_id p).0 t ∙ sym id))
        (λ empty.
          subst (λ r. All (λ a. (a.proposal_id == r) ≡ false) db.approvals) (sym id)
            (filter-nil _ db.approvals
              (sort_by-nil (λ b. b.step_order) (steps_of p db) (ap head? empty))))
        (submittable-IsStopped q.id (c.failing q.id) c.failing (status_in db.proposals)
          q.current_status db.approvals may
          (AreSteps-Splits q.id c.failing (status_in db.proposals) db.approvals is c.steps))
        done in
    subst IsConsistent (state_of_ok e4) (
      subst
        (λ k. IsConsistent (
          record_status env k u q.current_status Status.under_review
            (submission_note q.current_status)
            (set_proposal k (put_under_review env.now) prepared)))
        id
        (review-IsConsistent env q.id u q.current_status q.current_status
          (submission_note q.current_status) c.failing db prepared is ready))
