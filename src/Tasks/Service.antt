-- ===== src/Tasks/Service.antt =====
-- The operations of src/tasks/tasks.service.ts on tasks, comments and activity.
use crmp_backend.Base.{
  Given, omitted, given, ℕ, ◌+◌, String, Bool, true, false, not, ◌&&◌, Option, none, some, List, [],
  ◌∷◌, ◌++◌, ◌==◌, length, filter, find, update_where, sort_by, is_some, if◌then◌else◌, reverse,
  Result, ok, bad_request, forbidden, not_found, internal_server_error, require, or_throw, ◌>>=◌,
  ◌>>◌,
}
use crmp_backend.Workflow.Store.{ProjectMember}
use crmp_backend.Tasks.Model.{
  TaskStatus, todo, Priority, medium, Action, created, assignee_changed, assignee_removed,
  status_changed, priority_changed, commented, Task, TaskComment, Activity, TaskTables, CreateTask,
  UpdateTask, is_status, is_priority,
}

unfoldable pub is_user_member_of_project : ℕ → ℕ → TaskTables → Bool
unfolding find
is_user_member_of_project user project t =
    is_some
      (find (λ (m : ProjectMember). m.project_id == project && m.user_id == user) t.project_members)

abbrev pub assert_member : ℕ → ℕ → TaskTables → Result (Unit {0})
assert_member user project t = require (is_user_member_of_project user project t) forbidden

abbrev pub assert_assignee_member : ℕ → ℕ → TaskTables → Result (Unit {0})
assert_assignee_member assignee project t =
    require (is_user_member_of_project assignee project t) bad_request

unfoldable pub find_task_by_id : ℕ → TaskTables → Option Task
unfolding find
find_task_by_id task t = find (λ x. x.id == task) t.tasks

-- The rows of a project.
unfoldable pub project_tasks : ℕ → TaskTables → List Task
unfolding filter
project_tasks project t = filter (λ x. x.project_id == project) t.tasks

abbrev pub create_activity : ℕ → ℕ → ℕ → Action → TaskTables → TaskTables
create_activity task project user action t = record t {
  activity =
      t.activity
      ++ record { task_id = task; project_id = project; user_id = user; action = action } ∷ [];
}

-- `a ?? b`
abbrev pub or_default {ℓ} : {A : Type ℓ} → Option A → A → A
or_default none b = b
or_default (some a) b = a

abbrev pub check_assignee : Option ℕ → ℕ → TaskTables → Result (Unit {0})
check_assignee none project t = ok tt
check_assignee (some a) project t = assert_assignee_member a project t

abbrev pub new_task : ℕ → ℕ → ℕ → ℕ → CreateTask → TaskTables → Task
new_task now new_id user project dto t = record {
  id = new_id;
  task_code = length (project_tasks project t) + 1;
  project_id = project;
  title = dto.title;
  description = dto.description;
  status = or_default dto.status todo;
  priority = or_default dto.priority medium;
  assignee_id = dto.assignee_id;
  due_date = dto.due_date;
  created_by = some user;
  created_at = now;
  updated_at = now;
}

unfoldable pub create_task : ℕ → ℕ → ℕ → ℕ → CreateTask → TaskTables → Result TaskTables
unfolding is_user_member_of_project project_tasks
create_task now new_id user project dto t = do
  assert_member user project t
  check_assignee dto.assignee_id project t
  ok (
      create_activity new_id project user created
        (record t { tasks = t.tasks ++ new_task now new_id user project dto t ∷ [] }))

abbrev pub check_given_assignee : Given ℕ → ℕ → TaskTables → Result (Unit {0})
check_given_assignee omitted project t = ok tt
check_given_assignee (given a) project t = check_assignee a project t

abbrev pub given_or {ℓ} : {A : Type 0} → {B : Type ℓ} → Given A → (Option A → B) → B → B
given_or omitted f b = b
given_or (given a) f b = f a

-- A column that is NOT NULL.
abbrev pub not_null : {A : Type 0} → Given A → Bool
not_null (given none) = false
not_null _ = true

-- `repo.updateTask`
abbrev pub patched : ℕ → UpdateTask → Task → Task
patched now dto x = record x {
  title = given_or dto.title (λ v. or_default v x.title) x.title;
  description = given_or dto.description (λ v. v) x.description;
  status = given_or dto.status (λ v. or_default v x.status) x.status;
  priority = given_or dto.priority (λ v. or_default v x.priority) x.priority;
  assignee_id = given_or dto.assignee_id (λ v. v) x.assignee_id;
  due_date = given_or dto.due_date (λ v. v) x.due_date;
  updated_at = now;
}

abbrev pub same_assignee : Option ℕ → Option ℕ → Bool
same_assignee none none = true
same_assignee (some a) (some b) = a == b
same_assignee _ _ = false

abbrev pub status_activity : Given TaskStatus → TaskStatus → List Action
status_activity (given (some s)) old = if is_status s old then [] else status_changed old s ∷ []
status_activity _ old = []

abbrev pub priority_activity : Given Priority → Priority → List Action
priority_activity (given (some p)) old =
    if is_priority p old then [] else priority_changed old p ∷ []
priority_activity _ old = []

abbrev pub assignee_activity : Given ℕ → Option ℕ → List Action
assignee_activity omitted old = []
assignee_activity (given a) old =
    if same_assignee a old
    then []
    else if is_some a
    then assignee_changed ∷ []
    else assignee_removed ∷ []

unfoldable pub create_activities : ℕ → ℕ → ℕ → List Action → TaskTables → TaskTables
create_activities task project user [] t = t
create_activities task project user (a ∷ as') t =
    create_activities task project user as' (create_activity task project user a t)

unfoldable pub update_task : ℕ → ℕ → ℕ → UpdateTask → TaskTables → Result TaskTables
unfolding is_user_member_of_project find_task_by_id update_where create_activities
update_task now user task dto t = do
  x ← or_throw (find_task_by_id task t) not_found
  assert_member user x.project_id t
  check_given_assignee dto.assignee_id x.project_id t
  require (not_null dto.title && not_null dto.status && not_null dto.priority) internal_server_error
  ok (
      create_activities task x.project_id user
        (status_activity dto.status x.status
          ++ priority_activity dto.priority x.priority
          ++ assignee_activity dto.assignee_id x.assignee_id)
        (record t { tasks = update_where (λ y. y.id == task) (patched now dto) t.tasks }))

-- `raw?.createdBy && raw.createdBy !== userId` is false
abbrev pub may_delete : ℕ → Option ℕ → Bool
may_delete user none = true
may_delete user (some c) = c == user

-- DELETE, with the rows that refer to the task.
abbrev pub without_task : ℕ → TaskTables → TaskTables
without_task task t = record t {
  tasks = filter (λ x. not (x.id == task)) t.tasks;
  comments = filter (λ c. not (c.task_id == task)) t.comments;
  activity = filter (λ a. not (a.task_id == task)) t.activity;
}

unfoldable pub delete_task : ℕ → ℕ → TaskTables → Result TaskTables
unfolding is_user_member_of_project find_task_by_id filter
delete_task user task t = do
  x ← or_throw (find_task_by_id task t) not_found
  assert_member user x.project_id t
  require (may_delete user x.created_by) forbidden
  ok (without_task task t)

unfoldable pub add_comment : ℕ → ℕ → String → TaskTables → Result TaskTables
unfolding is_user_member_of_project find_task_by_id
add_comment user task comment t = do
  x ← or_throw (find_task_by_id task t) not_found
  assert_member user x.project_id t
  ok (
      create_activity task x.project_id user (commented comment) (record t {
        comments = t.comments ++ record { task_id = task; user_id = user; content = comment } ∷ [];
      }))

pub record Filters : Type 0 where
  pub status : Option TaskStatus
  pub priority : Option Priority
  pub assignee_id : Option ℕ

abbrev pub fits_filter {ℓ} : {A : Type ℓ} → (A → Bool) → Option A → Bool
fits_filter test none = true
fits_filter test (some a) = test a

abbrev pub is_assigned : Option ℕ → ℕ → Bool
is_assigned none a = false
is_assigned (some b) a = b == a

unfoldable pub find_tasks_by_project : ℕ → Filters → TaskTables → List Task
unfolding project_tasks filter sort_by
find_tasks_by_project project f t =
    sort_by (λ x. x.created_at)
      (filter
        (λ x.
          fits_filter (is_status x.status) f.status
          && fits_filter (is_priority x.priority) f.priority
          && fits_filter (is_assigned x.assignee_id) f.assignee_id)
        (project_tasks project t))

unfoldable pub get_tasks_by_project : ℕ → ℕ → Filters → TaskTables → Result (List Task)
unfolding is_user_member_of_project find_tasks_by_project
get_tasks_by_project user project f t =
    assert_member user project t >> ok (find_tasks_by_project project f t)

unfoldable pub get_task_by_id : ℕ → ℕ → TaskTables → Result Task
unfolding is_user_member_of_project find_task_by_id
get_task_by_id user task t = do
  x ← or_throw (find_task_by_id task t) not_found
  assert_member user x.project_id t
  ok x

unfoldable pub get_comments : ℕ → ℕ → TaskTables → Result (List TaskComment)
unfolding is_user_member_of_project find_task_by_id filter
get_comments user task t = do
  x ← or_throw (find_task_by_id task t) not_found
  assert_member user x.project_id t
  ok (filter (λ c. c.task_id == task) t.comments)

-- Members are rows in the order in which they were added.
unfoldable pub get_project_members : ℕ → ℕ → TaskTables → Result (List ProjectMember)
unfolding is_user_member_of_project filter
get_project_members user project t =
    assert_member user project t >> ok (filter (λ m. m.project_id == project) t.project_members)

-- Newest first: the rows stand in the order in which they were written.
unfoldable pub get_task_activity : ℕ → ℕ → TaskTables → Result (List Activity)
unfolding is_user_member_of_project find_task_by_id filter
get_task_activity user task t = do
  x ← or_throw (find_task_by_id task t) not_found
  assert_member user x.project_id t
  ok (reverse (filter (λ a. a.task_id == task) t.activity))
