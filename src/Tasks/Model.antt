-- ===== src/Tasks/Model.antt =====
-- The rows of src/db/schema/task.ts. Users' names and pictures, which only the answers show, are left
-- out. A task code `TASK-…` stands as its number.
use crmp_backend.Base.{Given, ℕ, String, Bool, Option, List, ◌==◌}
use crmp_backend.Workflow.Store.{ProjectMember}

-- taskStatusEnum
pub data TaskStatus : Type 0 where
  todo in_progress review done : TaskStatus

-- taskPriorityEnum
pub data Priority : Type 0 where
  low medium high : Priority

-- `action` of an activity, with what its `detail` is made of.
pub data Action : Type 0 where
  created assignee_changed assignee_removed : Action
  status_changed : TaskStatus → TaskStatus → Action
  priority_changed : Priority → Priority → Action
  commented : String → Action

pub record Task : Type 0 where
  pub id : ℕ
  pub task_code : ℕ
  pub project_id : ℕ
  pub title : String
  pub description : Option String
  pub status : TaskStatus
  pub priority : Priority
  pub assignee_id : Option ℕ
  pub due_date : Option ℕ
  pub created_by : Option ℕ
  pub created_at : ℕ
  pub updated_at : ℕ

pub record TaskComment : Type 0 where
  pub task_id : ℕ
  pub user_id : ℕ
  pub content : String

pub record Activity : Type 0 where
  pub task_id : ℕ
  pub project_id : ℕ
  pub user_id : ℕ
  pub action : Action

pub record TaskTables : Type 0 where
  pub tasks : List Task
  pub comments : List TaskComment
  pub activity : List Activity
  pub project_members : List ProjectMember

-- CreateTaskDto
pub record CreateTask : Type 0 where
  pub title : String
  pub description : Option String
  pub status : Option TaskStatus
  pub priority : Option Priority
  pub assignee_id : Option ℕ
  pub due_date : Option ℕ

-- UpdateTaskDto
pub record UpdateTask : Type 0 where
  pub title : Given String
  pub description : Given String
  pub status : Given TaskStatus
  pub priority : Given Priority
  pub assignee_id : Given ℕ
  pub due_date : Given ℕ

abbrev pub status_key : TaskStatus → ℕ
status_key todo = 0
status_key in_progress = 1
status_key review = 2
status_key done = 3

abbrev pub priority_key : Priority → ℕ
priority_key low = 0
priority_key medium = 1
priority_key high = 2

abbrev pub is_status : TaskStatus → TaskStatus → Bool
is_status a b = status_key a == status_key b

abbrev pub is_priority : Priority → Priority → Bool
is_priority a b = priority_key a == priority_key b
