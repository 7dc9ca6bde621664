-- ===== src/Evaluations/Tests.antt =====
-- A proposal with one student and two evaluators, and the theorems on src/evaluations at it.
use crmp_backend.Base.{
  ℕ, String, str_eq, true, false, Option, none, some, [], ◌∷◌, ◌≡◌, refl, ap, is_some,
  if◌then◌else◌, ok, find, Memᴰ,
}
use crmp_backend.Workflow.Model.{Proposal, Status, general, na}
use crmp_backend.Workflow.Store.{pi, evaluator}
use crmp_backend.Evaluations.Model.{Rubric, Phase, Score, ScoreEntry, EvaluationTables, is_score_of}
use crmp_backend.Evaluations.Scores.{is_blank_after, submit_scores, is_target}
use crmp_backend.Evaluations.Scores.Laws.{recorded}
use crmp_backend.Evaluations.Scores.Book.{write_all}
use crmp_backend.Evaluations.Scores.Submission.{submit_scores-recorded}
use crmp_backend.Evaluations.Scores.Accepted.{IsAcceptable, submit_scores-accepted}
use crmp_backend.Evaluations.Listing.{item_members, is_missing}
use crmp_backend.Evaluations.Listing.Laws.{rescored_still_missing}

abbrev to_column : String → Option String
to_column s = if str_eq s "1000" then none else some s

abbrev proposal : ℕ → Proposal
proposal p = record {
  id = p;
  created_by = 1;
  title = "Soil";
  abstract = none;
  proposal_program = some general;
  is_funded = true;
  degree_level = some na;
  research_area = none;
  duration_months = some 12;
  budget_amount = some "1500.00";
  current_status = Status.draft;
  is_editable = true;
  workspace_unlocked = false;
  current_step_order = none;
  submitted_at = none;
  project_id = none;
  department_id = none;
}

abbrev defence : Rubric
defence = record {
  id = 5;
  name = "Proposal Defence";
  phase = some Phase.proposal;
  max_points = "15.00";
  is_individual = false;
}

abbrev empty_tables : EvaluationTables
empty_tables = record {
  proposals = proposal 7 ∷ [];
  proposal_members =
      record { proposal_id = 7; user_id = 1; role = pi }
      ∷ record { proposal_id = 7; user_id = 2; role = evaluator }
      ∷ record { proposal_id = 7; user_id = 3; role = evaluator }
      ∷ [];
  users = 1 ∷ 2 ∷ 3 ∷ [];
  rubrics = defence ∷ [];
  scores = [];
}

abbrev entry : String → ScoreEntry
entry points = record { rubric_id = 5; student_id = 1; score = points; feedback = some "" }

abbrev row : String → ℕ → Score
row points now = record {
  rubric_id = 5;
  proposal_id = 7;
  project_id = none;
  student_id = 1;
  evaluator_id = 2;
  score = points;
  feedback = none;
  updated_at = now;
}

abbrev scored : EvaluationTables
scored = record empty_tables { scores = row "12" 10 ∷ [] }

abbrev twice_scored : EvaluationTables
twice_scored = record empty_tables { scores = row "14" 20 ∷ [] }

first_submission :
    submit_scores to_column 10 7 (entry "11" ∷ entry "12" ∷ []) 2 empty_tables ≡ ok scored
unfolding submit_scores
first_submission = refl

second_submission : submit_scores to_column 20 7 (entry "14" ∷ []) 3 scored ≡ ok twice_scored
unfolding submit_scores
second_submission = refl

listed_for_second : is_missing 3 7 twice_scored defence ≡ true
unfolding is_missing
listed_for_second = refl

target : find (is_target 7) (proposal 7 ∷ []) ≡ some (proposal 7)
unfolding find
target = refl

found : find (is_score_of 5 7 1) scored.scores ≡ some (row "12" 10)
unfolding find
found = refl

student : Memᴰ 1 (item_members 7 scored)
unfolding item_members
student = Memᴰ.head refl

submit_scores-recorded_example :
    recorded 5 7 1 scored.scores
    ≡ write_all to_column 5 1 (entry "11" ∷ entry "12" ∷ []) (recorded 5 7 1 empty_tables.scores)
submit_scores-recorded_example =
    submit_scores-recorded to_column 10 7 2 (entry "11" ∷ entry "12" ∷ []) (proposal 7) empty_tables
      scored 5 7 1 target first_submission

rescored_still_missing_example : is_missing 3 7 twice_scored defence ≡ true
rescored_still_missing_example =
    rescored_still_missing to_column 20 7 3 (entry "14" ∷ []) scored twice_scored 7 1 defence
      (row "12" 10) (tt, tt) student found (λ e. cc) second_submission

entry-IsAcceptable : IsAcceptable to_column (1 ∷ 2 ∷ 3 ∷ []) (defence ∷ []) (entry "11")
unfolding find is_blank_after
entry-IsAcceptable = record {
  fits_numeric = refl;
  fits_text = refl;
  has_user = refl;
  has_rubric = refl;
}

submit_scores-accepted_example :
    (t' : EvaluationTables) × (submit_scores to_column 10 7 (entry "11" ∷ []) 2 empty_tables
      ≡ ok t')
submit_scores-accepted_example =
    submit_scores-accepted to_column 10 7 2 (entry "11" ∷ []) empty_tables (ap is_some target) refl
      (entry-IsAcceptable, tt)
