-- ===== src/Workflow/Tests.antt =====
-- A small database with two proposals, and the theorems of the workflow at it.
mod Runs
mod Decisions
mod Filling
mod Generating
use crmp_backend.Base.{
  ℕ, ◌+◌, String, str_eq, Bool, true, false, Option, none, some, List, [], ◌∷◌, if◌then◌else◌,
  Result, ok, err,
}
use crmp_backend.Workflow.Model.{
  Proposal, RoutingRule, Status, StepType, approval, vote, form, general, na, User, Role, UserRole,
  Strategy, majority,
}
use crmp_backend.Workflow.Conditions.{Numbers}
use crmp_backend.Workflow.Store.{Db, Projects, Accounts, MemberRole, pi}
use crmp_backend.Workflow.Completion.{Env}

abbrev pub numbers : Numbers
numbers = record {
  rank = λ s. if str_eq s "1500" then some 15 else if str_eq s "1000" then some 10 else none;
  parse_float = λ s. if str_eq s "1500.00" then "1500" else s;
}

-- The call at time `t` gives the ids from `t` on.
abbrev pub env_at : ℕ → Env
env_at t = record { now = t; new_id = λ n. t + n; numbers = numbers; content_hash = λ s. s }

abbrev pub proposal : ℕ → Proposal
proposal p = record {
  id = p;
  created_by = 1;
  title = "Soil";
  abstract = none;
  proposal_program = some general;
  is_funded = true;
  degree_level = some na;
  research_area = none;
  duration_months = some 12;
  budget_amount = some "1500.00";
  current_status = Status.draft;
  is_editable = true;
  workspace_unlocked = false;
  current_step_order = none;
  submitted_at = none;
  project_id = none;
  department_id = none;
}

abbrev pub rule : ℕ → ℕ → String → StepType → RoutingRule
rule id order role type = record {
  id = id;
  proposal_program = some general;
  step_order = order;
  approver_role = role;
  step_label = none;
  step_type = type;
  vote_threshold = some 2;
  vote_threshold_strategy = some majority;
  dynamic_fields = none;
  branch_key = none;
  condition_group = none;
  branch_condition = none;
}

abbrev pub accounts : Accounts
accounts = record {
  users =
      record { id = 1; email = "pi" }
      ∷ record { id = 2; email = "rad" }
      ∷ record { id = 3; email = "dgc" }
      ∷ record { id = 4; email = "dgc2" }
      ∷ [];
  roles = record { id = 20; name = "RAD" } ∷ record { id = 30; name = "DGC_MEMBER" } ∷ [];
  user_roles =
      record { user_id = 2; role_id = 20 }
      ∷ record { user_id = 3; role_id = 30 }
      ∷ record { user_id = 4; role_id = 30 }
      ∷ [];
  coordinators = [];
}

abbrev pub tables : Projects
tables = record {
  proposal_members = record { proposal_id = 7; user_id = 1; role = pi } ∷ [];
  projects = [];
  project_members = [];
  budget_requests = record { id = 5; proposal_id = some 7; project_id = none } ∷ [];
  budget_request_items =
      record { budget_request_id = 5; description = "Kits"; requested_amount = 900 }
      ∷ record { budget_request_id = 5; description = "Travel"; requested_amount = 600 }
      ∷ [];
  project_budget_items = [];
  workspaces = [];
  documents = [];
  document_versions = [];
  audit_logs = [];
}

abbrev pub start : Db
start = record {
  proposals = proposal 7 ∷ proposal 8 ∷ [];
  approvals = [];
  routing_rules = rule 60 2 "DGC_MEMBER" vote ∷ rule 61 1 "RAD" approval ∷ [];
  status_history = [];
  files = [];
  accounts = accounts;
  tables = tables;
}
