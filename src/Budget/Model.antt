-- ===== src/Budget/Model.antt =====
-- The rows of src/db/schema/disbursement.ts. Amounts are numeric(15, 2) columns: whole cents here.
use crmp_backend.Base.{ℕ, String, Option}

-- budgetItemStatusEnum
pub data ItemStatus : Type 0 where
  available pending_disbursement paid : ItemStatus

-- disbursementStatusEnum
pub data RequestStatus : Type 0 where
  pending returned resubmitted paid rejected : RequestStatus

-- A row of project_budget_items.
pub record BudgetItem : Type 0 where
  pub id : ℕ
  pub project_id : ℕ
  pub description : String
  pub category : Option String
  pub amount : ℕ
  pub status : ItemStatus

-- A row of disbursement_requests.
pub record DisbursementRequest : Type 0 where
  pub id : ℕ
  pub project_id : ℕ
  pub requested_by : ℕ
  pub request_sequence : ℕ
  pub total_amount : ℕ
  pub status : RequestStatus
  pub clearance_file_id : Option ℕ
  pub bank_transaction_id : Option String
  pub finance_approved_by : Option ℕ
  pub paid_at : Option ℕ
  pub finance_feedback : Option String
  pub returned_by : Option ℕ
  pub returned_at : Option ℕ
  pub submitted_at : Option ℕ
  pub updated_at : Option ℕ

-- A row of disbursement_request_items.
pub record RequestItem : Type 0 where
  pub disbursement_request_id : ℕ
  pub budget_item_id : ℕ
