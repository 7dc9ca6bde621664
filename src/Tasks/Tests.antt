-- ===== src/Tasks/Tests.antt =====
-- A project with three tasks, and the theorems on src/tasks at it.
use crmp_backend.Base.{
  omitted, given, ℕ, true, none, some, [], ◌∷◌, length, ◌≡◌, ◌≢◌, refl, ok, err, forbidden, All,
  Memᴰ, arith, ◌⊎◌, inr,
}
use crmp_backend.Workflow.Store.{MemberRole}
use crmp_backend.Tasks.Model.{
  TaskStatus, todo, in_progress, review, done, medium, high, created, status_changed,
  assignee_changed, Task, TaskComment, Activity, TaskTables, CreateTask, UpdateTask,
}
use crmp_backend.Tasks.Service.{
  is_user_member_of_project, find_task_by_id, project_tasks, create_task, update_task, delete_task,
  add_comment, Filters, get_tasks_by_project, get_task_by_id, get_comments, get_project_members,
  get_task_activity,
}
use crmp_backend.Tasks.Summary.{SummaryCounts, get_summary}
use crmp_backend.Tasks.Counting.{IsCountOf, get_summary_totals}
use crmp_backend.Tasks.Guards.{outsider_refused, delete_task-eq-ok}
use crmp_backend.Tasks.Codes.{code_repeated}

abbrev task : ℕ → TaskStatus → ℕ → Task
task n s c = record {
  id = n;
  task_code = n;
  project_id = 9;
  title = "Sample";
  description = none;
  status = s;
  priority = medium;
  assignee_id = none;
  due_date = none;
  created_by = some c;
  created_at = n;
  updated_at = n;
}

abbrev tables : TaskTables
tables = record {
  tasks = task 1 done 4 ∷ task 2 in_progress 4 ∷ task 3 todo 5 ∷ [];
  comments = record { task_id = 1; user_id = 4; content = "first" } ∷ [];
  activity = record { task_id = 1; project_id = 9; user_id = 4; action = created } ∷ [];
  project_members =
      record { project_id = 9; user_id = 4; role = MemberRole.pi }
      ∷ record { project_id = 9; user_id = 5; role = MemberRole.member }
      ∷ [];
}

abbrev body : CreateTask
body = record {
  title = "Survey";
  description = none;
  status = none;
  priority = some high;
  assignee_id = some 5;
  due_date = none;
}

abbrev change : UpdateTask
change = record {
  title = omitted;
  description = omitted;
  status = given (some review);
  priority = given (some medium);
  assignee_id = given (some 5);
  due_date = omitted;
}

update_activity :
    update_task 30 4 3 change tables
    ≡ ok (record tables {
      tasks =
          task 1 done 4
          ∷ task 2 in_progress 4
          ∷ record (task 3 todo 5) { status = review; assignee_id = some 5; updated_at = 30 }
          ∷ [];
      activity =
          record { task_id = 1; project_id = 9; user_id = 4; action = created }
          ∷ record { task_id = 3; project_id = 9; user_id = 4; action = status_changed todo review }
          ∷ record { task_id = 3; project_id = 9; user_id = 4; action = assignee_changed }
          ∷ [];
    })
unfolding update_task
update_activity = refl

abbrev counts : SummaryCounts
counts = record { total_tasks = 3; in_progress = 1; completed = 1; blocked = 0 }

summary : get_summary 5 9 tables ≡ ok counts
unfolding get_summary
summary = refl

get_summary_totals_example : IsCountOf (project_tasks 9 tables) counts
get_summary_totals_example = get_summary_totals 5 9 tables counts summary

first_known : find_task_by_id 1 tables ≡ some (task 1 done 4)
unfolding find_task_by_id
first_known = refl

abbrev all_filters : Filters
all_filters = record { status = none; priority = none; assignee_id = none }

outsider_refused_example :
    (create_task 20 4 6 9 body tables ≡ err forbidden)
    × (get_tasks_by_project 6 9 all_filters tables ≡ err forbidden)
    × (get_project_members 6 9 tables ≡ err forbidden)
    × (get_summary 6 9 tables ≡ err forbidden)
    × (get_task_by_id 6 1 tables ≡ err forbidden)
    × (get_comments 6 1 tables ≡ err forbidden)
    × (get_task_activity 6 1 tables ≡ err forbidden)
    × (update_task 20 6 1 change tables ≡ err forbidden)
    × (delete_task 6 1 tables ≡ err forbidden)
    × (add_comment 6 1 "hello" tables ≡ err forbidden)
outsider_refused_example =
    outsider_refused 6 9 tables 20 4 1 body change "hello" all_filters (task 1 done 4)
      (inr (λ e. omega (arith, e)), (inr (λ e. omega (arith, e)), tt)) first_known refl

abbrev after_deletion : TaskTables
after_deletion = record tables {
  tasks = task 2 in_progress 4 ∷ task 3 todo 5 ∷ [];
  comments = [];
  activity = [];
}

deletion : delete_task 4 1 tables ≡ ok after_deletion
unfolding delete_task
deletion = refl

delete_task-eq-ok_example :
    (x : Task) × (find_task_by_id 1 tables ≡ some x)
    × (is_user_member_of_project 4 x.project_id tables ≡ true)
    × ((x.created_by ≡ none) ⊎ (x.created_by ≡ some 4))
    × All (λ (z : Task). z.id ≢ 1) after_deletion.tasks
    × All (λ (c : TaskComment). c.task_id ≢ 1) after_deletion.comments
    × All (λ (a : Activity). a.task_id ≢ 1) after_deletion.activity
    × All (λ (z : Task). (z.id ≡ 1) ⊎ Memᴰ z after_deletion.tasks) tables.tasks
    × All (λ (c : TaskComment). (c.task_id ≡ 1) ⊎ Memᴰ c after_deletion.comments) tables.comments
    × All (λ (a : Activity). (a.task_id ≡ 1) ⊎ Memᴰ a after_deletion.activity) tables.activity
delete_task-eq-ok_example = delete_task-eq-ok 4 1 tables after_deletion deletion

abbrev after_creation : TaskTables
after_creation = record after_deletion {
  tasks =
      task 2 in_progress 4
      ∷ task 3 todo 5
      ∷ record (task 3 todo 4) {
        id = 4;
        title = "Survey";
        priority = high;
        assignee_id = some 5;
        created_at = 20;
        updated_at = 20;
      }
      ∷ [];
  activity = record { task_id = 4; project_id = 9; user_id = 4; action = created } ∷ [];
}

creation : create_task 20 4 4 9 body after_deletion ≡ ok after_creation
unfolding create_task
creation = refl

three : 3 ≡ length (project_tasks 9 tables)
unfolding project_tasks
three = refl

code_repeated_example :
    Memᴰ (task 3 todo 5) after_creation.tasks
    × (z : Task) × Memᴰ z after_creation.tasks
    × (z.id ≡ 4)
    × (z.project_id ≡ 9)
    × (z.task_code ≡ 3)
code_repeated_example =
    code_repeated 20 4 4 4 9 1 body tables after_deletion after_creation (task 1 done 4)
      (task 3 todo 5)
      (
        (λ e. omega (arith, e), (λ e. omega (arith, e), tt)),
        ((λ e. omega (arith, e), tt), (tt, tt)),
      )
      first_known refl (Memᴰ.tail (Memᴰ.tail (Memᴰ.head refl))) (λ e. omega (arith, e)) three
      deletion creation
