-- ===== src/Workflow/Tests/Decisions.antt =====
-- The theorems about votes and branch conditions, at small inputs.
use crmp_backend.Base.{◌≡◌, ◌↔◌, refl, not, some, none, [], ◌∷◌}
use crmp_backend.Workflow.Model.{accepted, rejected, needs_revision, majority, Votes}
use crmp_backend.Workflow.Conditions.{EvaluationContext, evaluate_condition}
use crmp_backend.Workflow.Conditions.Laws.{budget_condition, complementary_budget_conditions}
use crmp_backend.Workflow.Votes.{final_decision}
use crmp_backend.Workflow.Votes.Laws.{Passes, final_decision-eq-accepted_iff}
use crmp_backend.Workflow.Tests.{numbers}

abbrev split_votes : Votes
split_votes = (2, accepted) ∷ (3, rejected) ∷ (4, accepted) ∷ (5, needs_revision) ∷ []

final_decision-eq-accepted_iff_example :
    (final_decision (some majority) split_votes ≡ accepted) ↔ Passes (some majority) split_votes
final_decision-eq-accepted_iff_example = final_decision-eq-accepted_iff (some majority) split_votes

abbrev context : EvaluationContext
context = record { budget_amount = "1500"; degree_level = none; proposal_program = none }

complementary_budget_conditions_example :
    (evaluate_condition numbers (budget_condition "gt" "1000") context
      ≡ not (evaluate_condition numbers (budget_condition "lte" "1000") context))
    × (evaluate_condition numbers (budget_condition "lt" "1000") context
        ≡ not (evaluate_condition numbers (budget_condition "gte" "1000") context))
complementary_budget_conditions_example =
    complementary_budget_conditions numbers context "1000" 15 10 refl refl
