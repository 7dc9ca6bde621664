-- ===== src/Workflow/Generation.antt =====
-- The steps that the first submission of a proposal makes from the routing rules:
-- `generateApprovalStepsFromRules` of src/proposals/workflow.service.ts.
use crmp_backend.Base.{
  ℕ, suc, ◌≤◌, ◌≡◌, refl, ◌==◌, not_found, state_of_ok, sort_by, ◌↔◌, ◌∙◌, ap, subst, true, List,
  [], ◌∷◌, ◌++◌, filter, ==_iff, ok, require-eq-ok, or_throw-eq-ok, >>=-eq-ok, ok-injective, arith,
  All, All-map, All-zip, sym, ◌≢◌, bad_request, internal_server_error, IsSorted, sort_by-IsSorted,
  filter-IsSorted,
}
use crmp_backend.Workflow.Model.{Proposal, Approval, RoutingRule, pending}
use crmp_backend.Workflow.Store.{Db, find_proposal, steps_of}
use crmp_backend.Workflow.Conditions.{EvaluationContext}
use crmp_backend.Workflow.Completion.{Env, set_proposal, record_status}
use crmp_backend.Workflow.Consistency.Acting.{find_proposal-id}
use crmp_backend.Workflow.Submission.{
  same_program, evaluation_context, rule_matches, matching_rules, step_from_rule, steps_from_rules,
  start_steps, some_rule, generate_approval_steps_from_rules, prepare_steps, can_submit_from,
  submit_proposal,
}

-- A step is active exactly when no step of the list comes before it.
abbrev pub IsFirstActive : List Approval → Approval → Type 0
IsFirstActive steps a = (a.is_active ≡ true) ↔ All (λ b. a.step_order ≤ b.step_order) steps

matching_rules-IsSorted :
    (env : Env) (context : EvaluationContext) (rules : List RoutingRule)
    → IsSorted (λ r. r.step_order) (matching_rules env context rules)
unfolding matching_rules
matching_rules-IsSorted env context rules =
    filter-IsSorted (λ r. r.step_order) (rule_matches env context) _
      (sort_by-IsSorted (λ r. r.step_order) rules)

-- A bound on the orders of the rules bounds those of the steps.
steps_from_rules-bound :
    (env : Env) (p first n k : ℕ) (rules : List RoutingRule)
    → All (λ r. k ≤ r.step_order) rules
    → All (λ a. k ≤ a.step_order) (steps_from_rules env p first n rules)
unfolding steps_from_rules step_from_rule
steps_from_rules-bound env p first n k [] h = tt
steps_from_rules-bound env p first n k (r ∷ rules) (le, h) =
    (le, steps_from_rules-bound env p first (suc n) k rules h)

steps_from_rules-active :
    (env : Env) (p first n : ℕ) (rules : List RoutingRule)
    → All
        (λ a. (a.is_active ≡ true) ↔ (a.step_order ≡ first))
        (steps_from_rules env p first n rules)
unfolding steps_from_rules step_from_rule
steps_from_rules-active env p first n [] = tt
steps_from_rules-active env p first n (r ∷ rules) =
    (==_iff r.step_order first, steps_from_rules-active env p first (suc n) rules)

start_steps-nonempty :
    (env : Env) (p : ℕ) (rules : List RoutingRule) (steps : List Approval)
    → start_steps env p rules ≡ ok steps
    → steps ≢ []
unfolding start_steps steps_from_rules
start_steps-nonempty env p [] steps h e = cc
start_steps-nonempty env p (r ∷ rules) steps h e = cc (ok-injective h ∙ e)

start_steps-active :
    (env : Env) (p : ℕ) (rules : List RoutingRule) (steps : List Approval)
    → IsSorted (λ r. r.step_order) rules
    → start_steps env p rules ≡ ok steps
    → All (IsFirstActive steps) steps
unfolding start_steps steps_from_rules step_from_rule
start_steps-active env p [] steps s h = cc
start_steps-active env p (r ∷ rules) steps (least, s) h =
    subst (λ xs. All (IsFirstActive xs) xs) (ok-injective h)
      (All-map (steps_from_rules env p r.step_order 0 (r ∷ rules))
        (λ a k. (
          λ on.
              All-map (steps_from_rules env p r.step_order 0 (r ∷ rules))
                (λ b le. subst (λ n. n ≤ b.step_order) (sym (k.0.0 on)) le) bound,
          λ least. k.0.1 (between (k.1) (least.0)),
        ))
        (All-zip _ _ (steps_from_rules env p r.step_order 0 (r ∷ rules))
          (steps_from_rules-active env p r.step_order 0 (r ∷ rules)) bound))
  where
    between : {m n : ℕ} → m ≤ n → n ≤ m → n ≡ m
    between le ge = omega arith

    bound :
        All (λ a. r.step_order ≤ a.step_order) (steps_from_rules env p r.step_order 0 (r ∷ rules))
    bound =
        steps_from_rules-bound env p r.step_order 0 r.step_order (r ∷ rules) (omega arith, least)

steps_from_rules-new :
    (env : Env) (p first n : ℕ) (rules : List RoutingRule)
    → All (λ a. (a.proposal_id ≡ p) × (a.decision ≡ pending)) (steps_from_rules env p first n rules)
unfolding steps_from_rules step_from_rule
steps_from_rules-new env p first n [] = tt
steps_from_rules-new env p first n (r ∷ rules) =
    ((refl, refl), steps_from_rules-new env p first (suc n) rules)

start_steps-new :
    (env : Env) (p : ℕ) (rules : List RoutingRule) (steps : List Approval)
    → start_steps env p rules ≡ ok steps
    → All (λ a. (a.proposal_id ≡ p) × (a.decision ≡ pending)) steps
unfolding start_steps
start_steps-new env p [] steps h = cc
start_steps-new env p (r ∷ rules) steps h =
    subst (All (λ a. (a.proposal_id ≡ p) × (a.decision ≡ pending))) (ok-injective h)
      (steps_from_rules-new env p r.step_order 0 (r ∷ rules))

-- The new rows of the proposal: there are some, they are its own, pending, and the first are active.
abbrev pub Grows : ℕ → Db → Db → Type 0
Grows p db db' =
    (steps : List Approval) × (db'.approvals ≡ db.approvals ++ steps)
    × (steps ≢ [])
    × All (λ a. (a.proposal_id ≡ p) × (a.decision ≡ pending)) steps
    × All (IsFirstActive steps) steps

generated-Grows :
    (env : Env) (q : Proposal) (db db' : Db)
    → generate_approval_steps_from_rules env q db ≡ ok db'
    → Grows q.id db db'
unfolding generate_approval_steps_from_rules
generated-Grows env q db db' h =
    let rules = filter (λ r. same_program r.proposal_program q.proposal_program) db.routing_rules in
    let (_, h) = require-eq-ok (some_rule rules) internal_server_error _ h in
    let (amount, _, h) = or_throw-eq-ok q.budget_amount bad_request _ h in
    let chosen = matching_rules env (evaluation_context env q amount) rules in
    let (steps, made, h) = >>=-eq-ok (start_steps env q.id chosen) _ h in
    (
      steps,
      ap (λ d. d.approvals) (sym (ok-injective h)),
      start_steps-nonempty env q.id chosen steps made,
      start_steps-new env q.id chosen steps made,
      start_steps-active env q.id chosen steps
          (matching_rules-IsSorted env (evaluation_context env q amount) rules) made,
    )

-- When a proposal without steps is submitted, the call adds pending steps of it to the database, at
-- least one, and changes no other step; of the new steps exactly those are active that have the
-- smallest order of all.
pub generated_steps_active :
    (env : Env) (p u r : ℕ) (db db' : Db)
    → steps_of p db ≡ []
    → submit_proposal env p u db ≡ ok (r, db')
    → Grows p db db'
unfolding submit_proposal prepare_steps set_proposal record_status sort_by
generated_steps_active env p u r db db' none_yet e =
    let (q, found, e) = or_throw-eq-ok (find_proposal p db) not_found _ e in
    let (_, e) = require-eq-ok (q.created_by == u) bad_request _ e in
    let (_, e) = require-eq-ok (can_submit_from q.current_status) bad_request _ e in
    let (prepared, done, e) =
      >>=-eq-ok (prepare_steps env q (sort_by (λ a. a.step_order) (steps_of p db)) db) _ e in
    let first : generate_approval_steps_from_rules env q db ≡ ok prepared =
      subst (λ old. prepare_steps env q (sort_by (λ a. a.step_order) old) db ≡ ok prepared) none_yet
        done in
    let grown =
      subst (λ i. Grows i db prepared) (find_proposal-id p db found)
        (generated-Grows env q db prepared first) in
    let kept : prepared.approvals ≡ db'.approvals = ap (λ (d : Db). d.approvals) (state_of_ok e) in
    (grown.0, sym kept ∙ grown.1, grown.2, grown.3, grown.4)
