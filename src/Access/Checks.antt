-- ===== src/Access/Checks.antt =====
-- `can` of src/access-control/access.service.ts, with its attribute checks.
use crmp_backend.Base.{
  ℕ, String, str_eq, eq_iff, Bool, true, false, ◌&&◌, ◌||◌, Option, none, some, List, [], ◌∷◌, ◌==◌,
  any, mem_str, ◌≡◌, ◌↔◌, ◌⊎◌, refl, inl, inr, Memᴰ, ==_iff, subst, and_iff,
}
use mathlib.Core.List.Memᴰ
use crmp_backend.Access.Permissions.{role_permissions_of}

pub record AuthUser : Type 0 where
  pub id : ℕ
  pub role : String
  pub department : Option String

-- What the checks read of a project and of a membership.
pub record ProjectAttributes : Type 0 where
  pub department : Option String
  pub project_program : Option String

pub record Membership : Type 0 where
  pub user_id : ℕ
  pub role : Option String

pub record AccessContext : Type 0 where
  pub project : Option ProjectAttributes
  pub project_member : Option Membership

unfoldable pub check_role_permission : String → List String → Bool
unfolding any
check_role_permission role permissions = any (λ p. mem_str p (role_permissions_of role)) permissions

-- An empty text counts as missing.
abbrev pub check_department : Option String → Option String → Bool
check_department (some a) (some b) = str_eq a "" || str_eq b "" || str_eq a b
check_department _ _ = true

abbrev pub check_department_match : AuthUser → ProjectAttributes → Bool
check_department_match user project = check_department user.department project.department

-- Every path returns true.
abbrev pub check_program_eligibility : AuthUser → ProjectAttributes → Bool
check_program_eligibility user project = true

-- A role of the membership, if there is one, changes nothing.
abbrev pub check_project_membership : AuthUser → Membership → Bool
check_project_membership user member = member.user_id == user.id

abbrev pub check_project : AuthUser → Option ProjectAttributes → Bool
check_project user none = true
check_project user (some p) = check_department_match user p && check_program_eligibility user p

abbrev pub check_member : AuthUser → Option Membership → Bool
check_member user none = true
check_member user (some m) = check_project_membership user m

unfoldable pub check_attribute_permissions : AuthUser → AccessContext → Bool
check_attribute_permissions user c =
    check_project user c.project && check_member user c.project_member

unfoldable pub can : AuthUser → List String → Option AccessContext → Bool
unfolding check_role_permission check_attribute_permissions
can user permissions none = check_role_permission user.role permissions
can user permissions (some c) =
    check_role_permission user.role permissions && check_attribute_permissions user c

-- The user and the project are not of two different departments.
abbrev pub SameDepartment : Option String → Option String → Type 0
SameDepartment (some a) (some b) = (a ≡ "") ⊎ ((b ≡ "") ⊎ (a ≡ b))
SameDepartment _ _ = Unit

abbrev pub InProject : AuthUser → Option ProjectAttributes → Type 0
InProject user none = Unit
InProject user (some p) = SameDepartment user.department p.department

abbrev pub InDepartment : AuthUser → Option AccessContext → Type 0
InDepartment user none = Unit
InDepartment user (some c) = InProject user c.project

abbrev pub IsOwn : AuthUser → Option Membership → Type 0
IsOwn user none = Unit
IsOwn user (some m) = m.user_id ≡ user.id

abbrev pub IsOwnMembership : AuthUser → Option AccessContext → Type 0
IsOwnMembership user none = Unit
IsOwnMembership user (some c) = IsOwn user c.project_member

-- The role has one of the permissions.
abbrev pub HasPermission : String → List String → Type 0
HasPermission role permissions =
    (p : String) × Memᴰ p permissions × Memᴰ p (role_permissions_of role)

or_split : (a b : Bool) → (a || b) ≡ true → (a ≡ true) ⊎ (b ≡ true)
or_split true b h = inl refl
or_split false b h = inr h

or_left : (a b : Bool) → a ≡ true → (a || b) ≡ true
or_left a b h = rw h refl

or_right : (a b : Bool) → b ≡ true → (a || b) ≡ true
or_right true b h = refl
or_right false b h = h

mem_str_iff : (s : String) (xs : List String) → (mem_str s xs ≡ true) ↔ Memᴰ s xs
mem_str_iff s [] = (λ h. cc, λ m. elim m [ ])
mem_str_iff s (x ∷ xs) = (
  λ h. elim (or_split (str_eq s x) (mem_str s xs) h) [
    | inl e ↦ Memᴰ.head ((eq_iff s x).0 e)
    | inr m ↦ Memᴰ.tail ((mem_str_iff s xs).0 m)
  ],
  λ m. elim (Memᴰ.cases_cons m) [
    | inl e ↦ or_left (str_eq s x) (mem_str s xs) ((eq_iff s x).1 e)
    | inr n ↦ or_right (str_eq s x) (mem_str s xs) ((mem_str_iff s xs).1 n)
  ],
)

check_role_permission_iff :
    (role : String) (ps : List String)
    → (check_role_permission role ps ≡ true) ↔ HasPermission role ps
unfolding check_role_permission any
check_role_permission_iff role [] = (λ h. cc, λ k. elim k.1 [ ])
check_role_permission_iff role (p ∷ ps) =
    let granted = role_permissions_of role in
    let rest = check_role_permission_iff role ps in
    (
      λ h. elim (or_split (mem_str p granted) (check_role_permission role ps) h) [
        | inl e ↦ (p, Memᴰ.head refl, (mem_str_iff p granted).0 e)
        | inr m ↦ let (q, asked, has) = rest.0 m in (q, Memᴰ.tail asked, has)
      ],
      λ k. elim (Memᴰ.cases_cons k.1) [
        | inl e ↦
            or_left (mem_str p granted) (check_role_permission role ps)
              ((mem_str_iff p granted).1 (subst (λ s. Memᴰ s granted) e k.2))
        | inr n ↦
            or_right (mem_str p granted) (check_role_permission role ps) (rest.1 (k.0, n, k.2))
      ],
    )

check_department_iff : (a b : Option String) → (check_department a b ≡ true) ↔ SameDepartment a b
check_department_iff none b = (λ _. tt, λ _. refl)
check_department_iff (some a) none = (λ _. tt, λ _. refl)
check_department_iff (some a) (some b) = (
  λ h. elim (or_split (str_eq a "" || str_eq b "") (str_eq a b) h) [
    | inl e ↦ elim (or_split (str_eq a "") (str_eq b "") e) [
      | inl l ↦ inl ((eq_iff a "").0 l)
      | inr r ↦ inr (inl ((eq_iff b "").0 r))
    ]
    | inr e ↦ inr (inr ((eq_iff a b).0 e))
  ],
  λ k. elim k [
    | inl l ↦
        or_left (str_eq a "" || str_eq b "") (str_eq a b)
          (or_left (str_eq a "") (str_eq b "") ((eq_iff a "").1 l))
    | inr m ↦ elim m [
      | inl r ↦
          or_left (str_eq a "" || str_eq b "") (str_eq a b)
            (or_right (str_eq a "") (str_eq b "") ((eq_iff b "").1 r))
      | inr e ↦ or_right (str_eq a "" || str_eq b "") (str_eq a b) ((eq_iff a b).1 e)
    ]
  ],
)

check_project_iff :
    (user : AuthUser) (c : AccessContext)
    → (check_project user c.project ≡ true) ↔ InDepartment user (some c)
check_project_iff user c = by_project c.project
  where
    by_project : (p : Option ProjectAttributes) → (check_project user p ≡ true) ↔ InProject user p
    by_project none = (λ _. tt, λ _. refl)
    by_project (some p) =
        let both = and_iff (check_department_match user p) true in
        let same = check_department_iff user.department p.department in
        (λ h. same.0 (both.0 h).0, λ k. both.1 (same.1 k, refl))

check_member_iff :
    (user : AuthUser) (c : AccessContext)
    → (check_member user c.project_member ≡ true) ↔ IsOwnMembership user (some c)
check_member_iff user c = by_member c.project_member
  where
    by_member : (m : Option Membership) → (check_member user m ≡ true) ↔ IsOwn user m
    by_member none = (λ _. tt, λ _. refl)
    by_member (some m) = ==_iff m.user_id user.id

-- A user can act exactly when the role has one of the permissions, and, where a context is given, the
-- user and the project are not of two different departments and the membership is the user's own.
pub can_iff :
    (user : AuthUser) (permissions : List String) (context : Option AccessContext)
    → (can user permissions context ≡ true) ↔ (
        HasPermission user.role permissions
        × InDepartment user context
        × IsOwnMembership user context)
unfolding can check_attribute_permissions
can_iff user ps none =
    let has = check_role_permission_iff user.role ps in (λ h. (has.0 h, tt, tt), λ k. has.1 k.0)
can_iff user ps (some c) =
    let has = check_role_permission_iff user.role ps in
    let project = check_project_iff user c in
    let member = check_member_iff user c in
    let whole = and_iff (check_role_permission user.role ps) (check_attribute_permissions user c) in
    let parts = and_iff (check_project user c.project) (check_member user c.project_member) in
    (
      λ h.
          let rest = parts.0 (whole.0 h).1 in
          (has.0 (whole.0 h).0, project.0 rest.0, member.0 rest.1),
      λ k. whole.1 (has.1 k.0, parts.1 (project.1 k.1, member.1 k.2)),
    )
