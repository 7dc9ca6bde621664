-- ===== src/Evaluations/Model.antt =====
-- The rows of src/db/schema/evaluation.ts and what src/evaluations/evaluations.service.ts reads. The
-- ids and creation times of the rows are left out, as no code looks at them. Scores are the texts that
-- the database keeps of them.
use crmp_backend.Base.{ℕ, String, Bool, Option, List, ◌==◌, ◌&&◌}
use crmp_backend.Workflow.Model.{Proposal}
use crmp_backend.Workflow.Store.{ProposalMember}

-- evaluationPhaseEnum
pub data Phase : Type 0 where
  proposal project : Phase

pub record Rubric : Type 0 where
  pub id : ℕ
  pub name : String
  pub phase : Option Phase
  pub max_points : String
  pub is_individual : Bool

pub record Score : Type 0 where
  pub rubric_id : ℕ
  pub proposal_id : ℕ
  pub project_id : Option ℕ
  pub student_id : ℕ
  pub evaluator_id : ℕ
  pub score : String
  pub feedback : Option String
  pub updated_at : ℕ

pub record EvaluationTables : Type 0 where
  pub proposals : List Proposal
  pub proposal_members : List ProposalMember
  pub users : List ℕ
  pub rubrics : List Rubric
  pub scores : List Score

-- ScoreDto; a score is given as `score.toString()`.
pub record ScoreEntry : Type 0 where
  pub rubric_id : ℕ
  pub student_id : ℕ
  pub score : String
  pub feedback : Option String

-- The columns of idx_eval_score_unique.
abbrev pub is_score_of : ℕ → ℕ → ℕ → Score → Bool
is_score_of r p s x = x.rubric_id == r && x.proposal_id == p && x.student_id == s
