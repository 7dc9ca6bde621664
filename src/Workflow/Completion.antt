-- ===== src/Workflow/Completion.antt =====
-- The end of the workflow: `completeWorkflow`, `createProjectFromApprovedProposal` and
-- `advanceWorkflow` of src/proposals/workflow.service.ts.
use crmp_backend.Base.{
  ℕ, suc, String, Bool, true, false, Option, none, some, List, [], ◌∷◌, ◌++◌, map, ◌==◌, find,
  filter, update_where, sort_by, head?, length, Result, ok, not_found, or_throw, ◌>>=◌,
}
use crmp_backend.Budget.Model.{BudgetItem, available}
use crmp_backend.Workflow.Model.{Proposal, Approval, Status, Note, final_approval}
use crmp_backend.Workflow.Conditions.{Numbers}
use crmp_backend.Workflow.Store.{
  Db, Projects, ProjectMember, ProposalMember, BudgetRequestItem, ProjectStage,
  EthicalClearanceStatus, find_proposal, steps_of,
}
use crmp_backend.Workflow.Approvers.{is_pending}

-- What a call takes from outside: the clock, the ids that the database gives to the rows that the
-- call inserts, the numbers of JavaScript, and `createHash('sha256')`.
pub record Env : Type 0 where
  pub now : ℕ
  pub new_id : ℕ → ℕ
  pub numbers : Numbers
  pub content_hash : String → String

pub record ProjectData : Type 0 where
  pub project_id : ℕ
  pub project_title : String
  pub proposal_members : List ProposalMember

pub record Advancement : Type 0 where
  pub next_step : Option ℕ
  pub is_complete : Bool
  pub project_data : Option ProjectData

-- `UPDATE proposals … WHERE id = p`
unfoldable pub set_proposal : ℕ → (Proposal → Proposal) → Db → Db
unfolding update_where
set_proposal p f db = record db { proposals = update_where (λ q. q.id == p) f db.proposals }

-- `UPDATE proposal_approvals … WHERE id = i`
unfoldable pub set_step : ℕ → (Approval → Approval) → Db → Db
unfolding update_where
set_step i f db = record db { approvals = update_where (λ a. a.id == i) f db.approvals }

-- `INSERT INTO proposal_status_history`
unfoldable pub record_status : Env → ℕ → ℕ → Status → Status → Note → Db → Db
record_status env p u old new note db = record db {
  status_history =
      db.status_history
      ++ record {
        proposal_id = p;
        changed_by = u;
        old_status = old;
        new_status = new;
        note = note;
        changed_at = env.now;
      }
        ∷ [];
}

abbrev initial_content : String
initial_content =
    "{\"type\":\"doc\",\"content\":[{\"type\":\"paragraph\",\"content\":[{\"type\":\"text\",\"text\":\"Start writing your document here...\"}]}]}"

abbrev pub or_empty : Option String → String
or_empty none = ""
or_empty (some s) = s

abbrev pub is_for : ℕ → Option ℕ → Bool
is_for p none = false
is_for p (some q) = q == p

-- The members of the proposal, as rows of project_members.
unfoldable pub project_member_of : ℕ → ProposalMember → ProjectMember
project_member_of project m = record { project_id = project; user_id = m.user_id; role = m.role }

-- The lines of the approved budget, as rows of project_budget_items; their ids start at `n`.
unfoldable pub seed_items : Env → ℕ → ℕ → List BudgetRequestItem → List BudgetItem
seed_items env project n [] = []
seed_items env project n (item ∷ rest) =
    record {
      id = env.new_id n;
      project_id = project;
      description = item.description;
      category = none;
      amount = item.requested_amount;
      status = available;
    }
    ∷ seed_items env project (suc n) rest

-- The lines of the first budget request of the proposal.
unfoldable pub budget_lines : ℕ → Projects → List BudgetRequestItem
unfolding filter find
budget_lines p t = elim (find (λ r. is_for p r.proposal_id) t.budget_requests) [
  | none ↦ []
  | some r ↦ filter (λ l. l.budget_request_id == r.id) t.budget_request_items
]

-- The rows that `createProjectFromApprovedProposal` inserts or updates, outside of proposals.
unfoldable pub project_tables : Env → Proposal → ℕ → Projects → Projects
unfolding filter update_where budget_lines seed_items project_member_of
project_tables env q u t =
    let project = env.new_id 0 in
    let workspace = env.new_id 1 in
    let document = env.new_id 2 in
    let version = env.new_id 3 in
    let members = filter (λ m. m.proposal_id == q.id) t.proposal_members in
    record t {
      projects =
          t.projects
          ++ record {
            project_id = project;
            project_title = q.title;
            project_description = or_empty q.abstract;
            project_program = q.proposal_program;
            is_funded = q.is_funded;
            duration_months = q.duration_months;
            research_area = q.research_area;
            project_stage = ProjectStage.approved;
            submission_date = env.now;
            ethical_clearance_status = EthicalClearanceStatus.approved;
          }
            ∷ [];
      project_members = t.project_members ++ map (project_member_of project) members;
      budget_requests =
          update_where (λ r. is_for q.id r.proposal_id)
            (λ r. record r { project_id = some project }) t.budget_requests;
      project_budget_items =
          t.project_budget_items ++ seed_items env project 4 (budget_lines q.id t);
      workspaces =
          t.workspaces
          ++ record {
            id = workspace;
            project_id = project;
            name = "Default Workspace";
            created_by = u;
          }
            ∷ [];
      documents =
          t.documents
          ++ record {
            id = document;
            workspace_id = workspace;
            current_content = initial_content;
            current_version_id = some version;
          }
            ∷ [];
      document_versions =
          t.document_versions
          ++ record {
            id = version;
            document_id = document;
            content = initial_content;
            created_by = u;
            content_hash = env.content_hash initial_content;
            version_number = 1;
          }
            ∷ [];
      audit_logs =
          t.audit_logs
          ++ record {
            actor_user_id = u;
            action = "CREATED";
            entity_type = "projects";
            entity_id = project;
            from_proposal = q.id;
            title = q.title;
            members_count = length members;
          }
            ∷ [];
    }

unfoldable pub create_project_from_approved_proposal : Env → Proposal → ℕ → Db → ProjectData × Db
unfolding project_tables set_proposal filter
create_project_from_approved_proposal env q u db =
    let linked = set_proposal q.id (λ r. record r { project_id = some (env.new_id 0) }) db in
    (
      record {
        project_id = env.new_id 0;
        project_title = q.title;
        proposal_members = filter (λ m. m.proposal_id == q.id) db.tables.proposal_members;
      },
      record linked { tables = project_tables env q u db.tables },
    )

abbrev pub approve : Proposal → Proposal
approve q = record q {
  current_status = Status.approved;
  is_editable = false;
  workspace_unlocked = true;
  current_step_order = some 0;
}

unfoldable pub complete_workflow : Env → ℕ → ℕ → Db → Result (Advancement × Db)
unfolding find_proposal set_proposal record_status create_project_from_approved_proposal
complete_workflow env p u db = do
  q ← or_throw (find_proposal p db) not_found
  let marked =
      record_status env p u q.current_status Status.approved final_approval
        (set_proposal p approve db)
  let created = create_project_from_approved_proposal env q u marked
  ok (record { next_step = none; is_complete = true; project_data = some created.0 }, created.1)

-- `findFirst` of the pending steps, by ascending order
unfoldable pub next_pending : ℕ → Db → Option Approval
unfolding steps_of filter sort_by
next_pending p db =
    head? (sort_by (λ a. a.step_order) (filter (λ a. is_pending a.decision) (steps_of p db)))

abbrev pub activate : Approval → Approval
activate a = record a { is_active = true }

unfoldable pub advance_workflow : Env → ℕ → ℕ → Db → Result (Advancement × Db)
unfolding next_pending set_step set_proposal complete_workflow
advance_workflow env p u db = elim (next_pending p db) [
  | none ↦ complete_workflow env p u db
  | some next ↦ ok (
    record { next_step = some next.step_order; is_complete = false; project_data = none },
    set_proposal p (λ q. record q { current_step_order = some next.step_order })
        (set_step next.id activate db),
  )
]
