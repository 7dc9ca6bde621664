-- ===== src/Workflow/Tests/Generating.antt =====
-- The generation of steps and the seeding of the budget at the sample proposal.
use crmp_backend.Base.{ℕ, ◌≡◌, refl, Result, ok, err, none, false, find}
use crmp_backend.Workflow.Store.{Db, find_proposal, steps_of}
use crmp_backend.Workflow.Completion.{Advancement, complete_workflow, budget_lines}
use crmp_backend.Workflow.Seeding.{IsSeeded, sum_requested, completed_budget}
use crmp_backend.Workflow.Submission.{submit_proposal}
use crmp_backend.Workflow.Generation.{Grows, generated_steps_active}
use crmp_backend.Workflow.Tests.{env_at, start, proposal}

abbrev state_of : Result (ℕ × Db) → Db
state_of (ok (_, db)) = db
state_of (err _) = start

abbrev generated_db : Db
unfolding submit_proposal
generated_db = state_of (submit_proposal (env_at 100) 7 (proposal 7).created_by start)

generated_steps_active_example : Grows 7 start generated_db
unfolding submit_proposal steps_of
generated_steps_active_example =
    generated_steps_active (env_at 100) 7 (proposal 7).created_by 7 start generated_db refl refl

abbrev completed_db : Db
unfolding complete_workflow
completed_db = db_of (complete_workflow (env_at 500) 7 4 start)
  where
    db_of : Result (Advancement × Db) → Db
    db_of (ok (_, db)) = db
    db_of (err _) = start

abbrev advancement : Advancement
unfolding complete_workflow
advancement = told (complete_workflow (env_at 500) 7 4 start)
  where
    told : Result (Advancement × Db) → Advancement
    told (ok (r, _)) = r
    told (err _) = record { next_step = none; is_complete = false; project_data = none }

completed_budget_example :
    IsSeeded 500 (budget_lines 7 start.tables) completed_db.tables.project_budget_items
unfolding complete_workflow find_proposal find
completed_budget_example =
    completed_budget (env_at 500) 7 4 (proposal 7) start completed_db advancement tt refl refl

seeded_total : sum_requested (budget_lines 7 start.tables) ≡ 1500
unfolding budget_lines
seeded_total = refl
