-- ===== src/Workflow/Consistency/Advance.antt =====
-- `advance_workflow` and the writes around it keep the steps consistent.
use crmp_backend.Base.{
  ℕ, ◌≡◌, ◌≢◌, refl, sym, ap, ◌∙◌, subst, true, none, some, List, [], ◌∷◌, ◌==◌, arith, inl, inr,
  ◌⊎◌, Bool-cases, Option-cases, filter, ==_iff, All, All-map, HasUnique, HasUnique-only,
  HasUnique-update_where, Memᴰ, head?-Mem, sort_by-Mem, filter-Mem, sort_by-nil, ok, not_found,
  or_throw-eq-ok, state_of_ok,
}
use crmp_backend.Workflow.Model.{
  Proposal, Approval, Status, Decision, pending, decided, final_approval,
}
use crmp_backend.Workflow.Store.{Db, find_proposal, steps_of}
use crmp_backend.Workflow.Approvers.{is_pending}
use crmp_backend.Workflow.Completion.{
  Env, Advancement, set_proposal, set_step, record_status, create_project_from_approved_proposal,
  complete_workflow, approve, next_pending, activate, advance_workflow,
}
use crmp_backend.Workflow.Consistency.{IsClosed, IsStepOf, IsConsistent, status_in}
use crmp_backend.Workflow.Consistency.Rows.{
  Splits, AreSteps-Splits, Splits-update_where, Splits-map, Splits-AreSteps, reassign,
  status_in-update_where_self, status_in-update_where_ne, status_in-update_where_same,
}

-- An UPDATE by the id of a step of `p` hits steps of `p` alone, and in fact that step.
pub HasUnique-hits :
    (p : ℕ) (L L' : Approval → Type 0) (f : Approval → Approval) (xs : List Approval)
    {step : Approval}
    → HasUnique (λ a. a.id) xs
    → Memᴰ step xs
    → step.proposal_id ≡ p
    → (L step → L' (f step))
    → All (λ a. (a.id == step.id) ≡ true → (a.proposal_id ≡ p) × (L a → L' (f a))) xs
HasUnique-hits p L L' f xs {step} u m mine fits =
    All-map xs
      (λ a only t.
        let same = only ((==_iff a.id step.id).0 t) in
        (ap (λ b. b.proposal_id) same ∙ mine, subst (λ b. L b → L' (f b)) (sym same) fits))
      (HasUnique-only (λ a. a.id) xs u m)

-- Consistency with the assignment of failed steps put on the table.
pub reassign-IsConsistent :
    (p : ℕ) (failing : ℕ → ℕ) (qs : List Proposal) (db : Db) (i : ℕ) {s : Status}
    → status_in db.proposals p ≡ some s
    → ((r : ℕ) → r ≢ p → status_in db.proposals r ≡ status_in qs r)
    → All (Splits p failing (status_in qs) (IsStepOf i (some s))) db.approvals
    → HasUnique (λ a. a.id) db.approvals
    → IsConsistent db
reassign-IsConsistent p failing qs db i at_p elsewhere rows u = record {
  failing = reassign p i failing;
  steps =
      Splits-AreSteps p failing (status_in qs) (status_in db.proposals) i db.approvals at_p
        elsewhere rows;
  unique = u;
}

-- An UPDATE of one step that leaves it fit for the status of its proposal.
pub set_step-IsConsistent :
    (p : ℕ) (f : Approval → Approval) (db : Db) (step : Approval) {s : Status} (c : IsConsistent db)
    → ((a : Approval) → (f a).id ≡ a.id)
    → ((a : Approval) → (f a).proposal_id ≡ a.proposal_id)
    → status_in db.proposals p ≡ some s
    → Memᴰ step db.approvals
    → step.proposal_id ≡ p
    → (IsStepOf (c.failing p) (some s) step → IsStepOf (c.failing p) (some s) (f step))
    → IsConsistent (set_step step.id f db)
unfolding set_step
set_step-IsConsistent p f db step {s} c same_id same_p is m mine fits =
    reassign-IsConsistent p c.failing db.proposals (set_step step.id f db) (c.failing p) is
      (λ r ne. refl)
      (Splits-update_where p c.failing (status_in db.proposals) _ _ (λ a. a.id == step.id) f
        db.approvals same_p
        (HasUnique-hits p (IsStepOf (c.failing p) (some s)) (IsStepOf (c.failing p) (some s)) f
          db.approvals c.unique m mine fits)
        (λ a mine' t k. k)
        (AreSteps-Splits p c.failing (status_in db.proposals) db.approvals is c.steps))
      (HasUnique-update_where (λ a. a.id) (λ a. a.id == step.id) f db.approvals same_id c.unique)

-- An UPDATE of a proposal that leaves its status alone.
pub set_proposal-IsConsistent :
    (p : ℕ) (f : Proposal → Proposal) (db : Db) (c : IsConsistent db)
    → ((q : Proposal) → (f q).id ≡ q.id)
    → ((q : Proposal) → (f q).current_status ≡ q.current_status)
    → IsConsistent (set_proposal p f db)
unfolding set_proposal
set_proposal-IsConsistent p f db c same_id same = record {
  failing = c.failing;
  steps =
      All-map db.approvals
        (λ a k.
          subst (λ o. IsStepOf (c.failing a.proposal_id) o a)
            (sym (status_in-update_where_same p f same_id db.proposals a.proposal_id same)) k)
        c.steps;
  unique = c.unique;
}

next_pending-Mem :
    (p : ℕ) (db : Db) {a : Approval}
    → next_pending p db ≡ some a
    → Memᴰ a db.approvals × (a.proposal_id ≡ p) × (a.decision ≡ pending)
unfolding next_pending steps_of
next_pending-Mem p db {a} h =
    let (in_steps, t) = filter-Mem _ _ (sort_by-Mem (λ b. b.step_order) _ (head?-Mem _ h)) in
    let (m, e) = filter-Mem _ db.approvals in_steps in (m, ground arith, pending_of a.decision t)
  where
    pending_of : (d : Decision) → is_pending d ≡ true → d ≡ pending
    pending_of pending _ = refl
    pending_of (decided o) e = cc

filter-filter-nil :
    (p : ℕ) (xs : List Approval)
    → filter (λ a. is_pending a.decision) (filter (λ a. a.proposal_id == p) xs) ≡ []
    → All (λ a. a.proposal_id ≡ p → a.decision ≢ pending) xs
unfolding filter
filter-filter-nil p [] h = tt
filter-filter-nil p (a ∷ xs) h = elim (Bool-cases (a.proposal_id == p)) [
  | inl t ↦ elim (Bool-cases (is_pending a.decision)) [
    | inl e ↦ ground arith
    | inr e ↦ (λ _ d. ground arith, filter-filter-nil p xs (ground arith))
  ]
  | inr f ↦ (λ mine. absurd (ground arith), filter-filter-nil p xs (ground arith))
]

next_pending-none :
    (p : ℕ) (db : Db)
    → next_pending p db ≡ none
    → All (λ a. a.proposal_id ≡ p → a.decision ≢ pending) db.approvals
unfolding next_pending steps_of
next_pending-none p db h = filter-filter-nil p db.approvals (sort_by-nil (λ a. a.step_order) _ h)

pub IsConsistent-same :
    (db db' : Db)
    → IsConsistent db
    → db'.proposals ≡ db.proposals
    → db'.approvals ≡ db.approvals
    → IsConsistent db'
IsConsistent-same db db' c e e' = record {
  failing = c.failing;
  steps = rw (e, e') c.steps;
  unique = rw e' c.unique;
}

-- With no pending step left, the approval of the proposal fits its steps.
approve-IsConsistent :
    (env : Env) (p u : ℕ) (old : Status) (db : Db)
    → IsConsistent db
    → status_in db.proposals p ≡ some Status.under_review
    → next_pending p db ≡ none
    → IsConsistent
        (record_status env p u old Status.approved final_approval (set_proposal p approve db))
unfolding record_status set_proposal
approve-IsConsistent env p u old db c is none_left =
    reassign-IsConsistent p c.failing db.proposals
      (record_status env p u old Status.approved final_approval (set_proposal p approve db))
      (c.failing p)
      (status_in-update_where_self p approve (λ q. refl) Status.approved db.proposals
        Status.under_review (λ q. refl) is)
      (status_in-update_where_ne p approve (λ q. refl) db.proposals)
      (Splits-map p c.failing (status_in db.proposals) _ _ db.approvals
        (All-map db.approvals (λ a over mine k. closed a (over mine) k)
          (next_pending-none p db none_left))
        (AreSteps-Splits p c.failing (status_in db.proposals) db.approvals is c.steps))
      c.unique
  where
    closed :
        (a : Approval) → a.decision ≢ pending → (a.decision ≡ pending) ⊎ IsClosed a → IsClosed a
    closed a over (inl e) = absurd (over e)
    closed a over (inr k) = k

complete_workflow-IsConsistent :
    (env : Env) (p u : ℕ) (db : Db) {r : Advancement} {db' : Db}
    → IsConsistent db
    → status_in db.proposals p ≡ some Status.under_review
    → next_pending p db ≡ none
    → complete_workflow env p u db ≡ ok (r, db')
    → IsConsistent db'
unfolding complete_workflow create_project_from_approved_proposal
complete_workflow-IsConsistent env p u db c is none_left e =
    let (q, found, e') = or_throw-eq-ok (find_proposal p db) not_found _ e in
    let marked =
      record_status env p u q.current_status Status.approved final_approval
        (set_proposal p approve db) in
    let linked = set_proposal q.id (λ k. record k { project_id = some (env.new_id 0) }) marked in
    subst IsConsistent (state_of_ok e') (
      IsConsistent-same linked _
        (set_proposal-IsConsistent q.id (λ k. record k { project_id = some (env.new_id 0) }) marked
          (approve-IsConsistent env p u q.current_status db c is none_left) (λ k. refl) (λ k. refl))
        refl refl)

-- Whatever the next step is, advancing keeps the steps consistent.
pub advance_workflow-IsConsistent :
    (env : Env) (p u : ℕ) (db : Db) {r : Advancement} {db' : Db}
    → IsConsistent db
    → status_in db.proposals p ≡ some Status.under_review
    → advance_workflow env p u db ≡ ok (r, db')
    → IsConsistent db'
unfolding advance_workflow
advance_workflow-IsConsistent env p u db c is e = elim (Option-cases (next_pending p db)) [
  | inl none_left ↦
      complete_workflow-IsConsistent env p u db c is none_left
        (rw (none_left, advance_workflow) at e)
  | inr (next, found) ↦
      let (m, mine, waits) = next_pending-Mem p db found in
      subst IsConsistent (state_of_ok (rw (found, advance_workflow) at e)) (
        set_proposal-IsConsistent p (λ q. record q { current_step_order = some next.step_order })
          (set_step next.id activate db)
          (set_step-IsConsistent p activate db next c (λ a. refl) (λ a. refl) is m mine
            (λ k. inl waits))
          (λ q. refl) (λ q. refl))
]
