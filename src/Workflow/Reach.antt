-- ===== src/Workflow/Reach.antt =====
-- Sequences of calls of src/proposals/workflow.service.ts on one database.
use crmp_backend.Base.{
  ℕ, ◌≡◌, sym, ◌∙◌, subst, Bool, true, false, Option, none, some, [], All, All-map, All-Mem,
  HasUnique-only, Memᴰ, String, ok,
}
use crmp_backend.Workflow.Model.{Proposal, Approval, Status, pending}
use crmp_backend.Workflow.Store.{Db}
use crmp_backend.Workflow.Completion.{Env, Advancement}
use crmp_backend.Workflow.Submission.{submit_proposal, is_failed, can_submit_from}
use crmp_backend.Workflow.Actions.{
  ActionData, ActionResult, accept_step, reject_step, request_revision, submit_action,
}
use crmp_backend.Workflow.Consistency.{IsClosed, IsStepOf, IsConsistent, status_in}
use crmp_backend.Workflow.Consistency.Acting.{
  active_IsStepOf, accept_step-IsConsistent, reject_step-IsConsistent,
  request_revision-IsConsistent,
}
use crmp_backend.Workflow.Consistency.Handlers.{submit_action-IsConsistent}
use crmp_backend.Workflow.Consistency.Generating.{HasFreshIds}
use crmp_backend.Workflow.Consistency.Submitting.{submit_proposal-IsConsistent}

-- One call that succeeds, by any user with any arguments. A call that throws changes nothing.
pub data Call (db : Db) : Db → Type 0 where
  submitted :
      (env : Env) (p u : ℕ) {r : ℕ} {db' : Db}
      → HasFreshIds env db
      → submit_proposal env p u db ≡ ok (r, db')
      → Call db db'
  accepted_step :
      (env : Env) (p u : ℕ) (comment : Option String) {r : Advancement × Option Proposal} {db' : Db}
      → accept_step env p u comment db ≡ ok (r, db')
      → Call db db'
  rejected_step :
      (env : Env) (p u : ℕ) (comment : Option String) {db' : Db}
      → reject_step env p u comment db ≡ ok db'
      → Call db db'
  revision_requested :
      (env : Env) (p u : ℕ) (comment : Option String) {db' : Db}
      → request_revision env p u comment db ≡ ok db'
      → Call db db'
  acted :
      (env : Env) (p u : ℕ) (d : ActionData) {r : ActionResult} {db' : Db}
      → submit_action env p u d db ≡ ok (r, db')
      → Call db db'

pub data Reaches (db : Db) : Db → Type 0 where
  here : Reaches db db
  next : {db' db'' : Db} → Reaches db db' → Call db' db'' → Reaches db db''

pub Call-IsConsistent : {db db' : Db} → IsConsistent db → Call db db' → IsConsistent db'
Call-IsConsistent {db} c (submitted env p u fresh e) =
    submit_proposal-IsConsistent env p u db c fresh e
Call-IsConsistent {db} c (accepted_step env p u comment e) =
    accept_step-IsConsistent env p u comment db c e
Call-IsConsistent {db} c (rejected_step env p u comment e) =
    reject_step-IsConsistent env p u comment db c e
Call-IsConsistent {db} c (revision_requested env p u comment e) =
    request_revision-IsConsistent env p u comment db c e
Call-IsConsistent {db} c (acted env p u d e) = submit_action-IsConsistent env p u d db c e

pub Reaches-IsConsistent : {db db' : Db} → IsConsistent db → Reaches db db' → IsConsistent db'
Reaches-IsConsistent c here = c
Reaches-IsConsistent c (next r call) = Call-IsConsistent (Reaches-IsConsistent c r) call

-- A database with no steps is consistent.
pub IsConsistent-start : (db : Db) → db.approvals ≡ [] → IsConsistent db
IsConsistent-start db empty = record { failing = λ p. p; steps = rw empty tt; unique = rw empty tt }

-- What a consistent database says of the steps of one proposal.
steps_at :
    (p : ℕ) (db : Db) (s : Status) (c : IsConsistent db)
    → status_in db.proposals p ≡ some s
    → All (λ a. a.proposal_id ≡ p → IsStepOf (c.failing p) (some s) a) db.approvals
steps_at p db s c is =
    All-map db.approvals
      (λ a k e.
        subst (λ o. IsStepOf (c.failing p) o a) is
          (subst (λ r. IsStepOf (c.failing r) (status_in db.proposals r) a) e k))
      c.steps

-- From a database with no steps, whatever calls are made, a proposal is approved only when each
-- step that it has was accepted, and none of its steps is active then.
pub approved_only_once_accepted :
    (db db' : Db) (p : ℕ)
    → db.approvals ≡ []
    → Reaches db db'
    → status_in db'.proposals p ≡ some Status.approved
    → All (λ a. a.proposal_id ≡ p → IsClosed a) db'.approvals
approved_only_once_accepted db db' p empty r is =
    steps_at p db' Status.approved (Reaches-IsConsistent (IsConsistent-start db empty) r) is

-- From a database with no steps, whatever calls are made, a step of an existing proposal is active
-- only while its decision is pending and the proposal is under review.
pub active_only_under_review :
    (db db' : Db) (p : ℕ) (s : Status)
    → db.approvals ≡ []
    → Reaches db db'
    → status_in db'.proposals p ≡ some s
    → All
        (λ a.
          a.proposal_id ≡ p
          → a.is_active ≡ true
          → (s ≡ Status.under_review) × (a.decision ≡ pending))
        db'.approvals
active_only_under_review db db' p s empty r is =
    let c = Reaches-IsConsistent (IsConsistent-start db empty) r in
    All-map db'.approvals (λ a k mine on. active_IsStepOf (c.failing p) s a (k mine) on)
      (steps_at p db' s c is)

abbrev pub can_submit_at : Option Status → Bool
can_submit_at none = false
can_submit_at (some s) = can_submit_from s

failed_id :
    (i : ℕ) (o : Option Status) (a : Approval)
    → can_submit_at o ≡ true
    → is_failed a.decision ≡ true
    → IsStepOf i o a
    → a.id ≡ i
failed_id i none a may f k = cc
failed_id i (some Status.draft) a may f k = k.1 f
failed_id i (some Status.needs_revision) a may f k = k.1 f
failed_id i (some Status.under_review) a may f k = cc
failed_id i (some Status.approved) a may f k = cc
failed_id i (some Status.rejected) a may f k = cc

-- From a database with no steps, whatever calls are made, two failed steps of a proposal that is a
-- draft or needs revision are the same step.
pub one_failed_step :
    (db db' : Db) (p : ℕ) (a b : Approval)
    → db.approvals ≡ []
    → Reaches db db'
    → can_submit_at (status_in db'.proposals p) ≡ true
    → Memᴰ a db'.approvals
    → Memᴰ b db'.approvals
    → a.proposal_id ≡ p
    → b.proposal_id ≡ p
    → is_failed a.decision ≡ true
    → is_failed b.decision ≡ true
    → a ≡ b
one_failed_step db db' p a b empty r may m n at_p at_p' f f' =
    let c = Reaches-IsConsistent (IsConsistent-start db empty) r in
    let i = failed_id (c.failing p) (status_in db'.proposals p) a may f (
      subst (λ r. IsStepOf (c.failing r) (status_in db'.proposals r) a) at_p
        (All-Mem _ c.steps m)) in
    let j = failed_id (c.failing p) (status_in db'.proposals p) b may f' (
      subst (λ r. IsStepOf (c.failing r) (status_in db'.proposals r) b) at_p'
        (All-Mem _ c.steps n)) in
    All-Mem _ (HasUnique-only (λ x. x.id) db'.approvals c.unique n) m (i ∙ sym j)
