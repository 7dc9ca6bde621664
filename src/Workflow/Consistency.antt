-- ===== src/Workflow/Consistency.antt =====
-- What the steps of a proposal look like in each of its statuses, between two calls of the workflow.
pub mod Rows
pub mod Advance
pub mod Halt
pub mod Acting
pub mod Handlers
pub mod Generating
pub mod Submitting
use crmp_backend.Base.{
  ℕ, ◌≡◌, ◌⊎◌, Bool, true, false, Option, none, some, List, ◌==◌, if◌then◌else◌, find, All,
  HasUnique,
}
use crmp_backend.Workflow.Model.{Proposal, Approval, Status, pending, decided, accepted}
use crmp_backend.Workflow.Submission.{is_failed}
use crmp_backend.Workflow.Store.{Db}

-- The step was accepted and is over.
abbrev pub IsClosed : Approval → Type 0
IsClosed a = (a.decision ≡ decided accepted) × (a.is_active ≡ false)

-- The step is not active, and if it failed then it is the step `i`.
abbrev pub IsStopped : ℕ → Approval → Type 0
IsStopped i a = (a.is_active ≡ false) × (is_failed a.decision ≡ true → a.id ≡ i)

-- A step of a proposal with this status, where `i` is the step that failed last. A step with no
-- proposal is not spoken of.
abbrev pub IsStepOf : ℕ → Option Status → Approval → Type 0
IsStepOf i (some Status.draft) a = IsStopped i a
IsStepOf i (some Status.under_review) a = (a.decision ≡ pending) ⊎ IsClosed a
IsStepOf i (some Status.needs_revision) a = IsStopped i a
IsStepOf i (some Status.approved) a = IsClosed a
IsStepOf i (some Status.rejected) a = IsStopped i a
IsStepOf i none a = Unit

unfoldable pub status_in : List Proposal → ℕ → Option Status
unfolding find
status_in qs p = elim (find (λ q. q.id == p) qs) [ none ↦ none | some q ↦ some q.current_status ]

abbrev pub AreSteps : (ℕ → ℕ) → (ℕ → Option Status) → List Approval → Type 0
AreSteps failing st xs = All (λ a. IsStepOf (failing a.proposal_id) (st a.proposal_id) a) xs

-- Every step fits its proposal's status, and step ids are a key.
pub record IsConsistent (db : Db) : Type 0 where
  pub failing : ℕ → ℕ
  pub steps : AreSteps failing (status_in db.proposals) db.approvals
  pub unique : HasUnique (λ a. a.id) db.approvals
