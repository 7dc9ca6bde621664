-- ===== src/Workflow/Store.antt =====
-- The tables of a transaction, and the rows that a project is made of (src/db/schema/project.ts,
-- workspace.ts, document.ts, budget.ts, audit-log.ts).
use crmp_backend.Base.{ℕ, String, Bool, Option, List, ◌==◌, find, filter}
use crmp_backend.Budget.Model.{BudgetItem}
use crmp_backend.Workflow.Model.{
  Proposal, Approval, RoutingRule, StatusChange, File, User, Role, UserRole, Coordinator, Program,
}

-- projectRoleEnum
pub data MemberRole : Type 0 where
  member pi supervisor evaluator advisor : MemberRole

-- ProjectStageEnum
pub data ProjectStage : Type 0 where
  submitted under_review approved rejected completed : ProjectStage

-- EthicalClearanceStatusEnum
pub data EthicalClearanceStatus : Type 0 where
  pending approved rejected : EthicalClearanceStatus

pub record ProposalMember : Type 0 where
  pub proposal_id : ℕ
  pub user_id : ℕ
  pub role : MemberRole

pub record Project : Type 0 where
  pub project_id : ℕ
  pub project_title : String
  pub project_description : String
  pub project_program : Option Program
  pub is_funded : Bool
  pub duration_months : Option ℕ
  pub research_area : Option String
  pub project_stage : ProjectStage
  pub submission_date : ℕ
  pub ethical_clearance_status : EthicalClearanceStatus

pub record ProjectMember : Type 0 where
  pub project_id : ℕ
  pub user_id : ℕ
  pub role : MemberRole

pub record BudgetRequest : Type 0 where
  pub id : ℕ
  pub proposal_id : Option ℕ
  pub project_id : Option ℕ

pub record BudgetRequestItem : Type 0 where
  pub budget_request_id : ℕ
  pub description : String
  pub requested_amount : ℕ

pub record Workspace : Type 0 where
  pub id : ℕ
  pub project_id : ℕ
  pub name : String
  pub created_by : ℕ

pub record Document : Type 0 where
  pub id : ℕ
  pub workspace_id : ℕ
  pub current_content : String
  pub current_version_id : Option ℕ

pub record DocumentVersion : Type 0 where
  pub id : ℕ
  pub document_id : ℕ
  pub content : String
  pub created_by : ℕ
  pub content_hash : String
  pub version_number : ℕ

pub record AuditEntry : Type 0 where
  pub actor_user_id : ℕ
  pub action : String
  pub entity_type : String
  pub entity_id : ℕ
  pub from_proposal : ℕ
  pub title : String
  pub members_count : ℕ

pub record Projects : Type 0 where
  pub proposal_members : List ProposalMember
  pub projects : List Project
  pub project_members : List ProjectMember
  pub budget_requests : List BudgetRequest
  pub budget_request_items : List BudgetRequestItem
  pub project_budget_items : List BudgetItem
  pub workspaces : List Workspace
  pub documents : List Document
  pub document_versions : List DocumentVersion
  pub audit_logs : List AuditEntry

pub record Accounts : Type 0 where
  pub users : List User
  pub roles : List Role
  pub user_roles : List UserRole
  pub coordinators : List Coordinator

pub record Db : Type 0 where
  pub proposals : List Proposal
  pub approvals : List Approval
  pub routing_rules : List RoutingRule
  pub status_history : List StatusChange
  pub files : List File
  pub accounts : Accounts
  pub tables : Projects

unfoldable pub find_proposal : ℕ → Db → Option Proposal
unfolding find
find_proposal p db = find (λ q. q.id == p) db.proposals

-- The rows of one proposal, in the order in which the database returns them.
unfoldable pub steps_of : ℕ → Db → List Approval
unfolding filter
steps_of p db = filter (λ a. a.proposal_id == p) db.approvals
