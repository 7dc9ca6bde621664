-- ===== src/Tasks/Counting.antt =====
-- What the counts of `getSummary` of src/tasks/tasks.service.ts add up to.
use crmp_backend.Base.{
  ℕ, suc, ◌+◌, ◌≤◌, List, [], ◌∷◌, length, if◌then◌else◌, ok, forbidden, ◌≡◌, refl, ap, ◌∙◌,
  Bool-cases, inl, inr, arith, require-eq-ok, ok-injective, subst,
}
use crmp_backend.Tasks.Model.{TaskStatus, in_progress, review, done, Task, TaskTables, is_status}
use crmp_backend.Tasks.Service.{is_user_member_of_project, project_tasks}
use crmp_backend.Tasks.Summary.{
  Counts, count_one, group_counts, get_task_counts_by_status, count_of, sum_counts, SummaryCounts,
  get_summary,
}

-- How many of the tasks have a status.
unfoldable pub with_status : TaskStatus → List Task → ℕ
with_status s [] = 0
with_status s (x ∷ xs) = if is_status x.status s then suc (with_status s xs) else with_status s xs

count_one-sum : (s : TaskStatus) (m : Counts) → sum_counts (count_one s m) ≡ suc (sum_counts m)
unfolding count_one sum_counts
count_one-sum s [] = omega arith
count_one-sum s ((k, n) ∷ m) = elim (Bool-cases (is_status k s)) [
  | inl e ↦ rw e (omega arith)
  | inr e ↦ rw e (omega (arith, count_one-sum s m))
]

count_one-count :
    (s s' : TaskStatus) (m : Counts)
    → count_of s' (count_one s m) ≡ (if is_status s s' then suc (count_of s' m) else count_of s' m)
unfolding count_one count_of
count_one-count s s' [] = ground arith
count_one-count s s' ((k, n) ∷ m) = ground (arith, count_one-count s s' m)

group_counts-sum : (xs : List Task) → sum_counts (group_counts xs) ≡ length xs
unfolding group_counts sum_counts
group_counts-sum [] = refl
group_counts-sum (x ∷ xs) = count_one-sum x.status (group_counts xs) ∙ ap suc (group_counts-sum xs)

group_counts-count :
    (s : TaskStatus) (xs : List Task) → count_of s (group_counts xs) ≡ with_status s xs
unfolding group_counts count_of with_status
group_counts-count s [] = refl
group_counts-count s (x ∷ xs) =
    count_one-count x.status s (group_counts xs)
    ∙ ap (λ n. if is_status x.status s then suc n else n) (group_counts-count s xs)

three_at_most :
    (xs : List Task)
    → with_status in_progress xs + with_status done xs + with_status review xs ≤ length xs
unfolding with_status
three_at_most [] = omega arith
three_at_most (x ∷ xs) = ground (arith, three_at_most xs)

abbrev pub IsCountOf : List Task → SummaryCounts → Type 0
IsCountOf xs s =
    (s.total_tasks ≡ length xs)
    × (s.in_progress ≡ with_status in_progress xs)
    × (s.completed ≡ with_status done xs)
    × (s.blocked ≡ with_status review xs)
    × (s.in_progress + s.completed + s.blocked ≤ s.total_tasks)

-- The summary of a project counts all its tasks, and those in progress, done and in review; the three
-- counts together are at most the total.
pub get_summary_totals :
    (user project : ℕ) (t : TaskTables) (s : SummaryCounts)
    → get_summary user project t ≡ ok s
    → IsCountOf (project_tasks project t) s
unfolding get_summary get_task_counts_by_status
get_summary_totals user project t s h =
    let xs = project_tasks project t in
    let (_, done_so) = require-eq-ok (is_user_member_of_project user project t) forbidden _ h in
    let total = group_counts-sum xs in
    let working = group_counts-count in_progress xs in
    let finished = group_counts-count done xs in
    let waiting = group_counts-count review xs in
    subst (IsCountOf xs) (ok-injective done_so) (
      total,
      working,
      finished,
      waiting,
      omega (arith, total, working, finished, waiting, three_at_most xs),
    )
