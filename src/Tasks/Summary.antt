-- ===== src/Tasks/Summary.antt =====
-- The counts of `getSummary` of src/tasks/tasks.service.ts, by `getTaskCountsByStatus` of
-- src/tasks/tasks.repository.ts.
use crmp_backend.Base.{ℕ, suc, ◌+◌, List, [], ◌∷◌, if◌then◌else◌, Result, ok, ◌>>◌}
use crmp_backend.Tasks.Model.{TaskStatus, review, done, Task, TaskTables, is_status}
use crmp_backend.Tasks.Service.{is_user_member_of_project, assert_member, project_tasks}

-- `{ status, count }`, one for each status that occurs
abbrev pub Counts : Type 0
Counts = List (TaskStatus × ℕ)

-- A row joins the group of its status.
unfoldable pub count_one : TaskStatus → Counts → Counts
count_one s [] = (s, 1) ∷ []
count_one s ((k, n) ∷ m) = if is_status k s then (k, suc n) ∷ m else (k, n) ∷ count_one s m

-- GROUP BY status
unfoldable pub group_counts : List Task → Counts
unfolding count_one
group_counts [] = []
group_counts (x ∷ xs) = count_one x.status (group_counts xs)

unfoldable pub get_task_counts_by_status : ℕ → TaskTables → Counts
unfolding group_counts project_tasks
get_task_counts_by_status project t = group_counts (project_tasks project t)

-- `countMap[status] ?? 0`
unfoldable pub count_of : TaskStatus → Counts → ℕ
count_of s [] = 0
count_of s ((k, n) ∷ m) = if is_status k s then n else count_of s m

-- `Object.values(countMap).reduce((a, b) => a + b, 0)`
unfoldable pub sum_counts : Counts → ℕ
sum_counts [] = 0
sum_counts ((k, n) ∷ m) = n + sum_counts m

pub record SummaryCounts : Type 0 where
  pub total_tasks : ℕ
  pub in_progress : ℕ
  pub completed : ℕ
  pub blocked : ℕ

unfoldable pub get_summary : ℕ → ℕ → TaskTables → Result SummaryCounts
unfolding is_user_member_of_project get_task_counts_by_status count_of sum_counts
get_summary user project t = do
  assert_member user project t
  let counts = get_task_counts_by_status project t
  ok record {
    total_tasks = sum_counts counts;
    in_progress = count_of TaskStatus.in_progress counts;
    completed = count_of done counts;
    blocked = count_of review counts;
  }
