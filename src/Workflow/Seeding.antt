-- ===== src/Workflow/Seeding.antt =====
-- The budget that an approved proposal gives to its project: `createProjectFromApprovedProposal` of
-- src/proposals/workflow.service.ts. The PI requests the disbursement of these items later.
use crmp_backend.Base.{
  ℕ, suc, ◌+◌, ◌≡◌, ◌≢◌, ◌∙◌, refl, sym, ap, subst, true, List, [], ◌∷◌, ◌++◌, filter, ◌==◌,
  ==_refl, ok, not_found, or_throw-eq-ok, ok-injective, some, some-injective, arith, All, all,
}
use crmp_backend.Budget.Model.{BudgetItem}
use crmp_backend.Budget.Requests.{is_available}
use crmp_backend.Workflow.Model.{Proposal}
use crmp_backend.Workflow.Store.{Db, BudgetRequestItem, find_proposal}
use crmp_backend.Workflow.Completion.{
  Env, Advancement, seed_items, budget_lines, project_tables, complete_workflow,
  create_project_from_approved_proposal, record_status, set_proposal,
}

-- What the budget request of the proposal asked for.
abbrev pub sum_requested : List BudgetRequestItem → ℕ
sum_requested [] = 0
sum_requested (l ∷ lines) = l.requested_amount + sum_requested lines

-- The exact sum.
unfoldable pub sum_amounts : List BudgetItem → ℕ
sum_amounts [] = 0
sum_amounts (i ∷ items) = i.amount + sum_amounts items

-- The items of a project.
abbrev pub items_of : ℕ → List BudgetItem → List BudgetItem
items_of project items = filter (λ i. i.project_id == project) items

items_of-append :
    (project : ℕ) (old new : List BudgetItem)
    → All (λ i. i.project_id ≢ project) old
    → items_of project (old ++ new) ≡ items_of project new
unfolding filter
items_of-append project [] new h = refl
items_of-append project (i ∷ old) new h = ground (arith, h.0, items_of-append project old new h.1)

items_of-seed_items :
    (env : Env) (project n : ℕ) (lines : List BudgetRequestItem)
    → items_of project (seed_items env project n lines) ≡ seed_items env project n lines
unfolding filter seed_items
items_of-seed_items env project n [] = refl
items_of-seed_items env project n (l ∷ lines) =
    rw (==_refl project, items_of-seed_items env project (suc n) lines) refl

seed_items-total :
    (env : Env) (project n : ℕ) (lines : List BudgetRequestItem)
    → (sum_amounts (seed_items env project n lines) ≡ sum_requested lines)
      × (all (λ i. is_available i.status) (seed_items env project n lines) ≡ true)
unfolding sum_amounts seed_items all
seed_items-total env project n [] = (refl, refl)
seed_items-total env project n (l ∷ lines) =
    let (e, k) = seed_items-total env project (suc n) lines in
    (ap (λ s. l.requested_amount + s) e, k)

-- The items of the project are all available, and their amounts add up to those of the lines.
abbrev pub IsSeeded : ℕ → List BudgetRequestItem → List BudgetItem → Type 0
IsSeeded project lines items =
    (all (λ i. is_available i.status) (items_of project items) ≡ true)
    × (sum_amounts (items_of project items) ≡ sum_requested lines)

append-IsSeeded :
    (env : Env) (project n : ℕ) (lines : List BudgetRequestItem) (old : List BudgetItem)
    → All (λ i. i.project_id ≢ project) old
    → IsSeeded project lines (old ++ seed_items env project n lines)
append-IsSeeded env project n lines old fresh =
    let own =
      items_of-append project old (seed_items env project n lines) fresh
      ∙ items_of-seed_items env project n lines in
    let (total, free) = seed_items-total env project n lines in
    (ap (λ is. all (λ i. is_available i.status) is) own ∙ free, ap sum_amounts own ∙ total)

-- When a workflow completes under a fresh project id, the items of the new project are all available,
-- and their amounts add up to those of the lines that the proposal's budget request asked for.
pub completed_budget :
    (env : Env) (p u : ℕ) (q : Proposal) (db db' : Db) (r : Advancement)
    → All (λ i. i.project_id ≢ env.new_id 0) db.tables.project_budget_items
    → find_proposal p db ≡ some q
    → complete_workflow env p u db ≡ ok (r, db')
    → IsSeeded (env.new_id 0) (budget_lines q.id db.tables) db'.tables.project_budget_items
unfolding complete_workflow create_project_from_approved_proposal project_tables record_status
    set_proposal
completed_budget env p u q db db' r fresh found h =
    let (q', found', h) = or_throw-eq-ok (find_proposal p db) not_found _ h in
    subst
      (λ (c : Advancement × Db).
        IsSeeded (env.new_id 0) (budget_lines q.id db.tables) c.1.tables.project_budget_items)
      (ok-injective h)
      (subst
        (λ (k : Proposal). IsSeeded (env.new_id 0) (budget_lines q.id db.tables) (
          db.tables.project_budget_items
          ++ seed_items env (env.new_id 0) 4 (budget_lines k.id db.tables)))
        (some-injective (sym found ∙ found'))
        (append-IsSeeded env (env.new_id 0) 4 (budget_lines q.id db.tables)
          db.tables.project_budget_items fresh))
