-- ===== src/Workflow/Consistency/Halt.antt =====
-- Writes that stop the workflow of a proposal: one step fails, and all its steps are deactivated.
use crmp_backend.Base.{
  ℕ, ◌≡◌, refl, ap, ◌∙◌, Bool, true, false, some, List, ◌==◌, ◌&&◌, arith, inl, inr, ◌⊎◌, ==_iff,
  All, All-map, All-universal, All-update_where, HasUnique, HasUnique-only, HasUnique-update_where,
  Memᴰ,
}
use crmp_backend.Workflow.Model.{Proposal, Approval, Status, pending, Note}
use crmp_backend.Workflow.Store.{Db}
use crmp_backend.Workflow.Approvers.{is_pending}
use crmp_backend.Workflow.Completion.{Env, set_proposal, set_step, record_status}
use crmp_backend.Workflow.Submission.{is_failed, deactivate_all}
use crmp_backend.Workflow.Actions.{deactivate_pending, send_back}
use crmp_backend.Workflow.Consistency.{IsClosed, IsStopped, IsStepOf, IsConsistent, status_in}
use crmp_backend.Workflow.Consistency.Rows.{
  Splits, AreSteps-Splits, Splits-update_where, Splits-map, status_in-update_where_self,
  status_in-update_where_ne,
}
use crmp_backend.Workflow.Consistency.Advance.{reassign-IsConsistent}

-- The step is as under review, or it is the inactive step `i`.
abbrev pub IsHalted : ℕ → Approval → Type 0
IsHalted i a = ((a.decision ≡ pending) ⊎ IsClosed a) ⊎ ((a.is_active ≡ false) × (a.id ≡ i))

-- The steps of `p` while its step `i` is being failed.
pub record IsHalting (p i : ℕ) (db : Db) : Type 0 where
  pub failing : ℕ → ℕ
  pub steps : All (Splits p failing (status_in db.proposals) (IsHalted i)) db.approvals
  pub own : All (λ a. (a.id == i) ≡ true → a.proposal_id ≡ p) db.approvals
  pub unique : HasUnique (λ a. a.id) db.approvals

pub IsConsistent-IsHalting :
    (p : ℕ) (db : Db) {step : Approval}
    → IsConsistent db
    → status_in db.proposals p ≡ some Status.under_review
    → Memᴰ step db.approvals
    → step.proposal_id ≡ p
    → IsHalting p step.id db
IsConsistent-IsHalting p db {step} c is m mine = record {
  failing = c.failing;
  steps =
      Splits-map p c.failing (status_in db.proposals)
        (IsStepOf (c.failing p) (some Status.under_review)) (IsHalted step.id) db.approvals
        (All-universal _ db.approvals (λ a _ k. inl k))
        (AreSteps-Splits p c.failing (status_in db.proposals) db.approvals is c.steps);
  own =
      All-map db.approvals
        (λ a only t. ap (λ b. b.proposal_id) (only ((==_iff a.id step.id).0 t)) ∙ mine)
        (HasUnique-only (λ a. a.id) db.approvals c.unique m);
  unique = c.unique;
}

-- An UPDATE of the failing step that leaves it inactive.
pub set_step-IsHalting :
    (p i : ℕ) (f : Approval → Approval) (db : Db)
    → ((a : Approval) → (f a).id ≡ a.id)
    → ((a : Approval) → (f a).proposal_id ≡ a.proposal_id)
    → ((a : Approval) → (f a).is_active ≡ false)
    → IsHalting p i db
    → IsHalting p i (set_step i f db)
unfolding set_step
set_step-IsHalting p i f db same_id same_p stops h = record {
  failing = h.failing;
  steps =
      Splits-update_where p h.failing (status_in db.proposals) (IsHalted i) (IsHalted i)
        (λ a. a.id == i) f db.approvals same_p
        (All-map db.approvals
          (λ a mine t. (mine t, λ _. inr (stops a, same_id a ∙ (==_iff a.id i).0 t))) h.own)
        (λ a mine t k. k) h.steps;
  own =
      All-update_where (λ a. a.id == i) f db.approvals (λ a t mine e. same_p a ∙ mine t)
        (λ a t mine. mine) h.own;
  unique = HasUnique-update_where (λ a. a.id) (λ a. a.id == i) f db.approvals same_id h.unique;
}

halted_stops : (i : ℕ) (a : Approval) → IsHalted i a → is_failed a.decision ≡ true → a.id ≡ i
halted_stops i a (inl (inl waits)) f = ground arith
halted_stops i a (inl (inr closed)) f = ground arith
halted_stops i a (inr (_, e)) f = e

-- The end of a halt: the steps are inactive, and the proposal is sent back with the status `s`.
module _ (env : Env) (p i u : ℕ) (old s : Status) (note : Note) (editable : Bool)
    (stops : (a : Approval) → IsStopped i a → IsStepOf i (some s) a) where
  close :
      (db : Db) (failing : ℕ → ℕ) (qs : List Proposal)
      → db.proposals ≡ qs
      → status_in qs p ≡ some Status.under_review
      → All (Splits p failing (status_in qs) (IsStopped i)) db.approvals
      → HasUnique (λ a. a.id) db.approvals
      → IsConsistent (record_status env p u old s note (set_proposal p (send_back s editable) db))
  unfolding record_status set_proposal
  close db failing qs e is rows unique =
      reassign-IsConsistent p failing qs
        (record_status env p u old s note (set_proposal p (send_back s editable) db)) i
        (rw e (
          status_in-update_where_self p (send_back s editable) (λ q. refl) s qs Status.under_review
            (λ q. refl) is))
        (rw e (status_in-update_where_ne p (send_back s editable) (λ q. refl) qs))
        (Splits-map p failing (status_in qs) (IsStopped i) (IsStepOf i (some s)) db.approvals
          (All-universal _ db.approvals (λ a _ k. stops a k)) rows)
        unique

  pub deactivate_pending-IsConsistent :
      (db : Db)
      → status_in db.proposals p ≡ some Status.under_review
      → IsHalting p i db
      → IsConsistent (
          record_status env p u old s note
            (set_proposal p (send_back s editable) (deactivate_pending p db)))
  unfolding deactivate_pending
  deactivate_pending-IsConsistent db is h =
      close (deactivate_pending p db) h.failing db.proposals refl is
        (Splits-update_where p h.failing (status_in db.proposals) (IsHalted i) (IsStopped i)
          (λ a. a.proposal_id == p && is_pending a.decision) (λ a. record a { is_active = false })
          db.approvals (λ a. refl)
          (All-universal _ db.approvals (λ a t. (ground arith, λ k. (refl, halted_stops i a k))))
          (λ a mine t k. inactive a mine t k) h.steps)
        (HasUnique-update_where (λ a. a.id) _ _ db.approvals (λ a. refl) h.unique)
    where
      inactive :
          (a : Approval)
          → a.proposal_id ≡ p
          → (a.proposal_id == p && is_pending a.decision) ≡ false
          → IsHalted i a
          → IsStopped i a
      inactive a mine t (inl (inl waits)) = ground arith
      inactive a mine t (inl (inr (d, off))) = (off, halted_stops i a (inl (inr (d, off))))
      inactive a mine t (inr (off, e)) = (off, λ _. e)

  pub deactivate_all-IsConsistent :
      (db : Db)
      → status_in db.proposals p ≡ some Status.under_review
      → IsHalting p i db
      → IsConsistent (
          record_status env p u old s note
            (set_proposal p (send_back s editable) (deactivate_all p db)))
  unfolding deactivate_all
  deactivate_all-IsConsistent db is h =
      close (deactivate_all p db) h.failing db.proposals refl is
        (Splits-update_where p h.failing (status_in db.proposals) (IsHalted i) (IsStopped i)
          (λ a. a.proposal_id == p) (λ a. record a { is_active = false }) db.approvals (λ a. refl)
          (All-universal _ db.approvals (λ a t. (ground arith, λ k. (refl, halted_stops i a k))))
          (λ a mine t k. absurd (ground arith)) h.steps)
        (HasUnique-update_where (λ a. a.id) _ _ db.approvals (λ a. refl) h.unique)
