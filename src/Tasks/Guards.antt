-- ===== src/Tasks/Guards.antt =====
-- Who may work with the tasks of a project, by src/tasks/tasks.service.ts.
use crmp_backend.Base.{
  ℕ, String, true, false, not, some, none, Option, ◌⊎◌, ◌&&◌, find, List, [], ◌∷◌, ◌==◌, filter, ok,
  err, forbidden, not_found, ◌≡◌, ◌≢◌, refl, ap, All, Memᴰ, Bool-cases, inl, inr, arith,
  require-eq-ok, or_throw-eq-ok, ok-injective, subst, ==_iff,
}
use mathlib.Core.List.Memᴰ
use crmp_backend.Workflow.Store.{ProjectMember}
use crmp_backend.Tasks.Model.{Task, TaskComment, Activity, TaskTables, CreateTask, UpdateTask}
use crmp_backend.Tasks.Service.{
  is_user_member_of_project, find_task_by_id, create_task, update_task, delete_task, add_comment,
  Filters, get_tasks_by_project, get_task_by_id, get_comments, may_delete, without_task,
  get_project_members, get_task_activity,
}
use crmp_backend.Tasks.Summary.{get_summary}

-- No row makes the user a member of the project.
abbrev pub IsOutside : ℕ → ℕ → TaskTables → Type 0
IsOutside user project t =
    All (λ (m : ProjectMember). (m.project_id ≢ project) ⊎ (m.user_id ≢ user)) t.project_members

not_found_outside :
    (user project : ℕ) (ms : List ProjectMember)
    → All (λ (m : ProjectMember). (m.project_id ≢ project) ⊎ (m.user_id ≢ user)) ms
    → find (λ (m : ProjectMember). m.project_id == project && m.user_id == user) ms ≡ none
unfolding find
not_found_outside user project [] h = refl
not_found_outside user project (m ∷ ms) (inl other, h) =
    ground (arith, other, not_found_outside user project ms h)
not_found_outside user project (m ∷ ms) (inr other, h) =
    ground (arith, other, not_found_outside user project ms h)

-- A user whom no row makes a member of a project is refused (forbidden) whatever can be asked of its
-- tasks: their list, the members, the summary and a new task, and reading, changing, deleting or
-- commenting on a task of it, its comments and its activity.
pub outsider_refused :
    (user project : ℕ) (t : TaskTables) (now new_id task : ℕ) (dto : CreateTask)
    (change : UpdateTask) (comment : String) (f : Filters) (x : Task)
    → IsOutside user project t
    → find_task_by_id task t ≡ some x
    → x.project_id ≡ project
    → (create_task now new_id user project dto t ≡ err forbidden)
      × (get_tasks_by_project user project f t ≡ err forbidden)
      × (get_project_members user project t ≡ err forbidden)
      × (get_summary user project t ≡ err forbidden)
      × (get_task_by_id user task t ≡ err forbidden)
      × (get_comments user task t ≡ err forbidden)
      × (get_task_activity user task t ≡ err forbidden)
      × (update_task now user task change t ≡ err forbidden)
      × (delete_task user task t ≡ err forbidden)
      × (add_comment user task comment t ≡ err forbidden)
unfolding create_task get_tasks_by_project get_project_members get_summary get_task_by_id
    get_comments get_task_activity update_task delete_task add_comment is_user_member_of_project
outsider_refused user project t now new_id task dto change comment f x out known its =
    let absent = not_found_outside user project t.project_members out in
    let refused : is_user_member_of_project user x.project_id t ≡ false = rw (its, absent) refl in
    (
      rw absent refl,
      rw absent refl,
      rw absent refl,
      rw absent refl,
      rw (known, refused) refl,
      rw (known, refused) refl,
      rw (known, refused) refl,
      rw (known, refused) refl,
      rw (known, refused) refl,
      rw (known, refused) refl,
    )

filter-not :
    {A : Type 0} (key : A → ℕ) (n : ℕ) (xs : List A)
    → All (λ x. key x ≢ n) (filter (λ x. not (key x == n)) xs)
unfolding filter
filter-not key n [] = tt
filter-not key n (x ∷ xs) = elim (Bool-cases (key x == n)) [
  | inl e ↦ rw e (filter-not key n xs)
  | inr e ↦ rw e ((λ same. cc (e, (==_iff (key x) n).1 same)), filter-not key n xs)
]

pub filter-kept :
    {A : Type 0} (key : A → ℕ) (n : ℕ) (xs : List A) {y : A}
    → key y ≢ n
    → Memᴰ y xs
    → Memᴰ y (filter (λ x. not (key x == n)) xs)
unfolding filter
filter-kept key n [] ne m = elim m [ ]
filter-kept key n (x ∷ xs) {y} ne m = elim (Memᴰ.cases_cons m) [
  | inl same ↦
      let other : (key x == n) ≡ false = ground (arith, ne, ap key same) in
      rw other (Memᴰ.head same)
  | inr later ↦ elim (Bool-cases (key x == n)) [
    | inl e ↦ rw e (filter-kept key n xs ne later)
    | inr e ↦ rw e (Memᴰ.tail (filter-kept key n xs ne later))
  ]
]

pub deleted_tables :
    (user task : ℕ) (t t' : TaskTables) → delete_task user task t ≡ ok t' → without_task task t ≡ t'
unfolding delete_task
deleted_tables user task t t' h =
    let (x, _, h) = or_throw-eq-ok (find_task_by_id task t) not_found _ h in
    let (_, h) = require-eq-ok (is_user_member_of_project user x.project_id t) forbidden _ h in
    let (_, h) = require-eq-ok (may_delete user x.created_by) forbidden _ h in ok-injective h

-- A row of another task is still there.
others_kept :
    {A : Type 0} (key : A → ℕ) (n : ℕ) (xs : List A)
    → All (λ y. (key y ≡ n) ⊎ Memᴰ y (filter (λ x. not (key x == n)) xs)) xs
others_kept {A} key n xs = each xs (λ y m. m)
  where
    each :
        (ys : List A)
        → ((y : A) → Memᴰ y ys → Memᴰ y xs)
        → All (λ y. (key y ≡ n) ⊎ Memᴰ y (filter (λ x. not (key x == n)) xs)) ys
    each [] sub = tt
    each (y ∷ ys) sub = (
      elim (Bool-cases (key y == n)) [
        | inl e ↦ inl ((==_iff (key y) n).0 e)
        | inr e ↦ inr (
            filter-kept key n xs (λ same. cc (e, (==_iff (key y) n).1 same))
              (sub y (Memᴰ.head refl)))
      ],
      each ys (λ z m. sub z (Memᴰ.tail m)),
    )

-- A task is deleted only by a member of its project who created it, unless its creator is no user any
-- more; then no task of its id, no comment and no activity on it is left, and each row that there was
-- of another task, a comment or an activity on another task included, is still there.
pub delete_task-eq-ok :
    (user task : ℕ) (t t' : TaskTables)
    → delete_task user task t ≡ ok t'
    → (x : Task) × (find_task_by_id task t ≡ some x)
      × (is_user_member_of_project user x.project_id t ≡ true)
      × ((x.created_by ≡ none) ⊎ (x.created_by ≡ some user))
      × All (λ (z : Task). z.id ≢ task) t'.tasks
      × All (λ (c : TaskComment). c.task_id ≢ task) t'.comments
      × All (λ (a : Activity). a.task_id ≢ task) t'.activity
      × All (λ (z : Task). (z.id ≡ task) ⊎ Memᴰ z t'.tasks) t.tasks
      × All (λ (c : TaskComment). (c.task_id ≡ task) ⊎ Memᴰ c t'.comments) t.comments
      × All (λ (a : Activity). (a.task_id ≡ task) ⊎ Memᴰ a t'.activity) t.activity
unfolding delete_task
delete_task-eq-ok user task t t' h =
    let (x, known, h) = or_throw-eq-ok (find_task_by_id task t) not_found _ h in
    let (inside, h) = require-eq-ok (is_user_member_of_project user x.project_id t) forbidden _ h in
    let (may, h) = require-eq-ok (may_delete user x.created_by) forbidden _ h in
    let left = ok-injective h in
    (
      x,
      known,
      inside,
      creator x.created_by may,
      subst (λ (u : TaskTables). All (λ (z : Task). z.id ≢ task) u.tasks) left
          (filter-not (λ (z : Task). z.id) task t.tasks),
      subst (λ (u : TaskTables). All (λ (c : TaskComment). c.task_id ≢ task) u.comments) left
          (filter-not (λ (c : TaskComment). c.task_id) task t.comments),
      subst (λ (u : TaskTables). All (λ (a : Activity). a.task_id ≢ task) u.activity) left
          (filter-not (λ (a : Activity). a.task_id) task t.activity),
      subst (λ (u : TaskTables). All (λ (z : Task). (z.id ≡ task) ⊎ Memᴰ z u.tasks) t.tasks) left
          (others_kept (λ (z : Task). z.id) task t.tasks),
      subst
          (λ (u : TaskTables).
            All (λ (c : TaskComment). (c.task_id ≡ task) ⊎ Memᴰ c u.comments) t.comments)
          left (others_kept (λ (c : TaskComment). c.task_id) task t.comments),
      subst
          (λ (u : TaskTables).
            All (λ (a : Activity). (a.task_id ≡ task) ⊎ Memᴰ a u.activity) t.activity)
          left (others_kept (λ (a : Activity). a.task_id) task t.activity),
    )
  where
    creator : (c : Option ℕ) → may_delete user c ≡ true → (c ≡ none) ⊎ (c ≡ some user)
    creator none m = inl refl
    creator (some c) m = inr (ap some ((==_iff c user).0 m))
