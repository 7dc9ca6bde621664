-- ===== src/Workflow/Consistency/Generating.antt =====
-- The steps that a first submission generates.
use crmp_backend.Base.{
  ℕ, suc, ◌≡◌, ◌≢◌, refl, sym, ap, ◌∙◌, subst, false, Option, some, List, [], ◌∷◌, ◌++◌, ◌==◌,
  arith, inl, inr, ◌⊎◌, Bool-cases, filter, All, All-map, All-append, All-zip, HasUnique,
  HasUnique-append, Memᴰ, ok, bad_request, internal_server_error, or_throw-eq-ok, require-eq-ok,
  >>=-eq-ok, ok-injective, leb, ◌≤◌, Option-cases,
}
use crmp_backend.Workflow.Model.{Proposal, Approval, RoutingRule, Status, pending}
use crmp_backend.Workflow.Store.{Db}
use crmp_backend.Workflow.Completion.{Env}
use crmp_backend.Workflow.Submission.{
  steps_from_rules, start_steps, some_rule, same_program, evaluation_context, matching_rules,
  generate_approval_steps_from_rules, latest,
}
use crmp_backend.Workflow.Consistency.{IsClosed, IsConsistent, status_in}
use crmp_backend.Workflow.Consistency.Rows.{Splits}

-- The ids that the database gives are new: no step has one, and no two rows get the same.
pub record HasFreshIds (env : Env) (db : Db) : Type 0 where
  pub distinct : (m n : ℕ) → env.new_id m ≡ env.new_id n → m ≡ n
  pub unused : (n : ℕ) → All (λ a. a.id ≢ env.new_id n) db.approvals

pub latest-Mem : (xs : List Approval) {a : Approval} → latest xs ≡ some a → Memᴰ a xs
unfolding latest
latest-Mem [] h = cc
latest-Mem (x ∷ xs) {a} h = elim (Option-cases (latest xs)) [
  | inl empty ↦ Memᴰ.head (ground arith)
  | inr (b, found) ↦ elim (Bool-cases (leb b.step_order x.step_order)) [
    | inl t ↦ Memᴰ.head (ground arith)
    | inr f ↦ let same : b ≡ a = ground arith in Memᴰ.tail (latest-Mem xs (found ∙ ap some same))
  ]
]

-- A step under review.
abbrev pub IsOpen : Approval → Type 0
IsOpen a = (a.decision ≡ pending) ⊎ IsClosed a

-- What the preparation of the steps of `p` leaves.
pub record IsPrepared (p : ℕ) (failing : ℕ → ℕ) (db prepared : Db) : Type 0 where
  pub steps : All (Splits p failing (status_in db.proposals) IsOpen) prepared.approvals
  pub unique : HasUnique (λ a. a.id) prepared.approvals
  pub proposals : prepared.proposals ≡ db.proposals

module _ (env : Env) (p first : ℕ) where
  steps_from_rules-Splits :
      (failing : ℕ → ℕ) (st : ℕ → Option Status) (n : ℕ) (rules : List RoutingRule)
      → All (Splits p failing st IsOpen) (steps_from_rules env p first n rules)
  unfolding steps_from_rules
  steps_from_rules-Splits failing st n [] = tt
  steps_from_rules-Splits failing st n (r ∷ rules) =
      ((λ _. inl refl, λ ne. absurd (ne refl)), steps_from_rules-Splits failing st (suc n) rules)

  -- The new rows have ids from `n` on.
  steps_from_rules-apart :
      (i n : ℕ) (rules : List RoutingRule)
      → ((m : ℕ) → n ≤ m → i ≢ env.new_id m)
      → All (λ y. y.id ≢ i) (steps_from_rules env p first n rules)
  unfolding steps_from_rules
  steps_from_rules-apart i n [] h = tt
  steps_from_rules-apart i n (r ∷ rules) h = (
    λ e. h n (omega arith) (sym e),
    steps_from_rules-apart i (suc n) rules (λ m le. h m (omega arith)),
  )

  steps_from_rules-HasUnique :
      (n : ℕ) (rules : List RoutingRule)
      → ((a b : ℕ) → env.new_id a ≡ env.new_id b → a ≡ b)
      → HasUnique (λ a. a.id) (steps_from_rules env p first n rules)
  unfolding steps_from_rules
  steps_from_rules-HasUnique n [] d = tt
  steps_from_rules-HasUnique n (r ∷ rules) d = (
    steps_from_rules-apart (env.new_id n) (suc n) rules (λ m le e. absurd (omega (arith, d n m e))),
    steps_from_rules-HasUnique (suc n) rules d,
  )

  steps_from_rules-new :
      (db : Db) (n : ℕ) (rules : List RoutingRule)
      → HasFreshIds env db
      → All (λ y. All (λ x. x.id ≢ y.id) db.approvals) (steps_from_rules env p first n rules)
  unfolding steps_from_rules
  steps_from_rules-new db n [] h = tt
  steps_from_rules-new db n (r ∷ rules) h = (h.unused n, steps_from_rules-new db (suc n) rules h)

start_steps-eq-ok :
    (env : Env) (p : ℕ) (rules : List RoutingRule) {steps : List Approval}
    → start_steps env p rules ≡ ok steps
    → (first : ℕ) × (steps_from_rules env p first 0 rules ≡ steps)
unfolding start_steps
start_steps-eq-ok env p [] e = cc
start_steps-eq-ok env p (r ∷ rules) e = (r.step_order, ok-injective e)

pub generate-IsPrepared :
    (env : Env) (q : Proposal) (db : Db) {prepared : Db} (c : IsConsistent db)
    → HasFreshIds env db
    → All (λ a. (a.proposal_id == q.id) ≡ false) db.approvals
    → generate_approval_steps_from_rules env q db ≡ ok prepared
    → IsPrepared q.id c.failing db prepared
unfolding generate_approval_steps_from_rules
generate-IsPrepared env q db {prepared} c fresh none_yet e =
    let rules = filter (λ r. same_program r.proposal_program q.proposal_program) db.routing_rules in
    let (_, e1) = require-eq-ok (some_rule rules) internal_server_error _ e in
    let (amount, _, e2) = or_throw-eq-ok q.budget_amount bad_request _ e1 in
    let chosen = matching_rules env (evaluation_context env q amount) rules in
    let (steps, started, e3) = >>=-eq-ok (start_steps env q.id chosen) _ e2 in
    let (first, built) = start_steps-eq-ok env q.id chosen started in
    let grown = λ (xs : List Approval). record db { approvals = db.approvals ++ xs } in
    subst (IsPrepared q.id c.failing db) (ap grown built ∙ ok-injective e3) (record {
      steps =
          All-append _ db.approvals (steps_from_rules env q.id first 0 chosen)
            (All-map db.approvals (λ a k. (λ mine. absurd (ground (arith, k.0)), λ _. k.1))
              (All-zip _ _ db.approvals none_yet c.steps))
            (steps_from_rules-Splits env q.id first c.failing (status_in db.proposals) 0 chosen);
      unique =
          HasUnique-append (λ a. a.id) db.approvals (steps_from_rules env q.id first 0 chosen)
            c.unique (steps_from_rules-HasUnique env q.id first 0 chosen fresh.distinct)
            (steps_from_rules-new env q.id first db 0 chosen fresh);
      proposals = refl;
    })
