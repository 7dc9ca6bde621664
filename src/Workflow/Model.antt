-- ===== src/Workflow/Model.antt =====
-- The rows that src/proposals/workflow.service.ts reads and writes (src/db/schema/proposals.ts,
-- routing.ts, enums.ts, files.ts, roles.ts). Row ids, users and times are only compared and copied,
-- so they are numbers; a file's id keeps its text, which the form code tests. A nullable column is
-- an `Option`.
use crmp_backend.Base.{ℕ, String, Bool, Option, List, Json}

-- proposalStatusEnum
pub data Status : Type 0 where
  draft under_review needs_revision approved rejected : Status

-- DecisionOutcome, the decisions that a user can take
pub data DecisionOutcome : Type 0 where
  accepted rejected needs_revision : DecisionOutcome

-- approvalDecisionEnum: `Pending`, or one of the three outcomes
pub data Decision : Type 0 where
  pending : Decision
  decided : DecisionOutcome → Decision

-- stepTypeEnum
pub data StepType : Type 0 where
  approval vote form : StepType

-- voteThresholdStrategyEnum
pub data Strategy : Type 0 where
  majority all_voters number : Strategy

-- ProjectProgramEnum
pub data Program : Type 0 where
  ug pg general : Program

-- degreeLevelEnum
pub data DegreeLevel : Type 0 where
  master phd na : DegreeLevel

-- The text that an enum's value has in the database and in a branch condition.
abbrev pub program_text : Program → String
program_text ug = "UG"
program_text pg = "PG"
program_text general = "GENERAL"

abbrev pub degree_text : DegreeLevel → String
degree_text master = "Master"
degree_text phd = "PhD"
degree_text na = "NA"

-- One entry of `dynamicFieldsJson.fields`.
pub record SchemaField : Type 0 where
  pub name : String
  pub type : String
  pub required : Bool

-- `dynamicFieldsJson`; `none` is a missing `fields`.
pub record FormSchema : Type 0 where
  pub fields : Option (List SchemaField)

-- `voteJson`: each voter's decision.
abbrev pub Votes : Type 0
Votes = List (ℕ × DecisionOutcome)

-- `submittedJson`: the values of a form by field name.
abbrev pub FormData : Type 0
FormData = List (String × Json)

pub record Proposal : Type 0 where
  pub id : ℕ
  pub created_by : ℕ
  pub title : String
  pub abstract : Option String
  pub proposal_program : Option Program
  pub is_funded : Bool
  pub degree_level : Option DegreeLevel
  pub research_area : Option String
  pub duration_months : Option ℕ
  pub budget_amount : Option String
  pub current_status : Status
  pub is_editable : Bool
  pub workspace_unlocked : Bool
  pub current_step_order : Option ℕ
  pub submitted_at : Option ℕ
  pub project_id : Option ℕ
  pub department_id : Option ℕ

pub record Approval : Type 0 where
  pub id : ℕ
  pub proposal_id : ℕ
  pub routing_rule_id : Option ℕ
  pub step_order : ℕ
  pub approver_role : String
  pub approver_user_id : Option ℕ
  pub step_label : Option String
  pub step_type : StepType
  pub dynamic_fields : Option FormSchema
  pub vote_threshold : Option ℕ
  pub vote_threshold_strategy : Option Strategy
  pub decision : Decision
  pub is_active : Bool
  pub comment : Option String
  pub decision_at : Option ℕ
  pub vote_json : Option Votes
  pub submitted_json : Option FormData
  pub branch_key : Option String
  pub condition_group : Option String
  pub created_at : ℕ

pub record RoutingRule : Type 0 where
  pub id : ℕ
  pub proposal_program : Option Program
  pub step_order : ℕ
  pub approver_role : String
  pub step_label : Option String
  pub step_type : StepType
  pub vote_threshold : Option ℕ
  pub vote_threshold_strategy : Option Strategy
  pub dynamic_fields : Option FormSchema
  pub branch_key : Option String
  pub condition_group : Option String
  pub branch_condition : Option Json

-- The text of a status change: who decided at which step, or one of three fixed texts.
pub data Note : Type 0 where
  initial_submission resubmitted final_approval : Note
  decided_by : DecisionOutcome → String → ℕ → Note

-- A row of proposal_status_history.
pub record StatusChange : Type 0 where
  pub proposal_id : ℕ
  pub changed_by : ℕ
  pub old_status : Status
  pub new_status : Status
  pub note : Note
  pub changed_at : ℕ

pub data FileStatus : Type 0 where
  temp attached : FileStatus

pub record File : Type 0 where
  pub id : String
  pub uploaded_by : Option ℕ
  pub resource_type : Option String
  pub resource_id : Option ℕ
  pub purpose : Option String
  pub status : FileStatus

pub record User : Type 0 where
  pub id : ℕ
  pub email : String

pub record Role : Type 0 where
  pub id : ℕ
  pub name : String

pub record UserRole : Type 0 where
  pub user_id : ℕ
  pub role_id : ℕ

pub record Coordinator : Type 0 where
  pub user_id : ℕ
  pub department_id : ℕ
