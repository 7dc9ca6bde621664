-- ===== src/Tasks/Codes.antt =====
-- The codes that `createTask` of src/tasks/tasks.service.ts gives, after tasks were deleted.
use crmp_backend.Base.{
  ℕ, suc, true, false, not, some, List, [], ◌∷◌, ◌++◌, ◌==◌, length, filter, find, ok, forbidden,
  ◌≡◌, ◌≢◌, refl, ap, ◌∙◌, All, Memᴰ, Bool-cases, inl, inr, arith, >>=-eq-ok, require-eq-ok,
  ok-injective, subst, ==_iff, HasUnique, some-injective,
}
use mathlib.Core.List.Memᴰ
use crmp_backend.Tasks.Model.{Task, TaskTables, CreateTask}
use crmp_backend.Tasks.Service.{
  is_user_member_of_project, find_task_by_id, project_tasks, check_assignee, new_task, create_task,
  delete_task,
}
use crmp_backend.Tasks.Guards.{deleted_tables, filter-kept}

filter-others :
    (n : ℕ) (xs : List Task)
    → All (λ (x : Task). x.id ≢ n) xs
    → filter (λ (x : Task). not (x.id == n)) xs ≡ xs
unfolding filter
filter-others n [] h = refl
filter-others n (x ∷ xs) h =
    let other : (x.id == n) ≡ false = ground (arith, h.0) in
    rw other (ap (λ ys. x ∷ ys) (filter-others n xs h.1))

-- A deletion leaves a project with one task less.
one_less :
    (project n : ℕ) (xs : List Task) (x : Task)
    → HasUnique (λ (y : Task). y.id) xs
    → find (λ (y : Task). y.id == n) xs ≡ some x
    → (x.project_id == project) ≡ true
    → suc (
        length (
          filter
            (λ (y : Task). y.project_id == project)
            (filter (λ (y : Task). not (y.id == n)) xs)))
      ≡ length (filter (λ (y : Task). y.project_id == project) xs)
unfolding filter find
one_less project n [] x u h its = cc
one_less project n (y ∷ ys) x u h its = elim (Bool-cases (y.id == n)) [
  | inl e ↦
      let same : y ≡ x = some-injective (rw e at h) in
      let mine : (y.project_id == project) ≡ true =
        ap (λ (z : Task). z.project_id == project) same ∙ its in
      let apart = subst (λ k. All (λ (z : Task). z.id ≢ k) ys) ((==_iff y.id n).0 e) u.0 in
      rw (e, mine, filter-others n ys apart) refl
  | inr e ↦
      let rest = one_less project n ys x u.1 (rw e at h) its in
      elim (Bool-cases (y.project_id == project)) [
        | inl mine ↦ rw (e, mine) (ap suc rest)
        | inr f ↦ rw (e, f) rest
      ]
]

created_code :
    (now new_id user project : ℕ) (dto : CreateTask) (t t' : TaskTables) (y : Task)
    → create_task now new_id user project dto t ≡ ok t'
    → Memᴰ y t.tasks
    → Memᴰ y t'.tasks × Memᴰ (new_task now new_id user project dto t) t'.tasks
unfolding create_task
created_code now new_id user project dto t t' y h m =
    let (_, h) = require-eq-ok (is_user_member_of_project user project t) forbidden _ h in
    let (_, _, h) = >>=-eq-ok (check_assignee dto.assignee_id project t) _ h in
    let z = new_task now new_id user project dto t in
    subst (λ (u : TaskTables). Memᴰ y u.tasks × Memᴰ z u.tasks) (ok-injective h)
      (Mem-append_left t.tasks (z ∷ []) m, Mem-append_right t.tasks (z ∷ []) (Memᴰ.head refl))
  where
    Mem-append_left : (xs ys : List Task) {y : Task} → Memᴰ y xs → Memᴰ y (xs ++ ys)
    Mem-append_left [] ys m = elim m [ ]
    Mem-append_left (x ∷ xs) ys m = elim (Memᴰ.cases_cons m) [
      | inl e ↦ Memᴰ.head e
      | inr n ↦ Memᴰ.tail (Mem-append_left xs ys n)
    ]

    Mem-append_right : (xs ys : List Task) {y : Task} → Memᴰ y ys → Memᴰ y (xs ++ ys)
    Mem-append_right [] ys m = m
    Mem-append_right (x ∷ xs) ys m = Memᴰ.tail (Mem-append_right xs ys m)

kept_others :
    (user d : ℕ) (t t' : TaskTables) (y : Task)
    → delete_task user d t ≡ ok t'
    → Memᴰ y t.tasks
    → y.id ≢ d
    → Memᴰ y t'.tasks
kept_others user d t t' y h there other =
    subst (λ (u : TaskTables). Memᴰ y u.tasks) (deleted_tables user d t t' h)
      (filter-kept (λ (z : Task). z.id) d t.tasks other there)

-- When the newest code of a project is the number of its tasks, and another task of the project is
-- deleted, then the next task of the project gets the newest code a second time.
pub code_repeated :
    (now new_id user user' project d : ℕ) (dto : CreateTask) (t t' t'' : TaskTables) (x y : Task)
    → HasUnique (λ (z : Task). z.id) t.tasks
    → find_task_by_id d t ≡ some x
    → x.project_id ≡ project
    → Memᴰ y t.tasks
    → y.id ≢ d
    → y.task_code ≡ length (project_tasks project t)
    → delete_task user' d t ≡ ok t'
    → create_task now new_id user project dto t' ≡ ok t''
    → Memᴰ y t''.tasks
      × (z : Task) × Memᴰ z t''.tasks
      × (z.id ≡ new_id)
      × (z.project_id ≡ project)
      × (z.task_code ≡ y.task_code)
unfolding project_tasks find_task_by_id
code_repeated now new_id user user' project d dto t t' t'' x y u known its there other code h k =
    let kept = kept_others user' d t t' y h there other in
    let (still, new) = created_code now new_id user project dto t' t'' y k kept in
    let fewer = one_less project d t.tasks x u known ((==_iff x.project_id project).1 its) in
    let left =
      ap (λ (u : TaskTables). length (project_tasks project u)) (deleted_tables user' d t t' h) in
    (
      still,
      new_task now new_id user project dto t',
      new,
      refl,
      refl,
      omega (arith, left, fewer, code),
    )
