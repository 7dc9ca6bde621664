-- ===== src/Access/Tests.antt =====
-- Two roles and three permissions, and the theorems on src/access-control at them.
use crmp_backend.Base.{
  true, some, ◌↔◌, ℕ, String, false, none, [], ◌∷◌, mem_nat, ◌≡◌, refl, ok, err, conflict, arith,
  ◌≢◌, omitted, given,
}
use crmp_backend.Access.Roles.{
  RoleRow, PermissionRow, RoleTables, create_role, find_role_permissions, Replaced,
  replace_role_permissions, find_role_by_id, update_role,
}
use crmp_backend.Access.Permissions.{role_permissions_of}
use crmp_backend.Access.Checks.{
  AuthUser, AccessContext, can, HasPermission, InDepartment, IsOwnMembership, can_iff,
}
use crmp_backend.Access.Granting.{replace_role_permissions_lem}
use mathlib.Core.List.Memᴰ
use crmp_backend.Access.Naming.{role_created, here, next}
use crmp_backend.Access.Taken.{taken_name_refused}

abbrev role : ℕ → String → RoleRow
role n s = record { id = n; name = s; description = none }

abbrev permission : ℕ → String → PermissionRow
permission n s = record { id = n; key = s; description = none }

abbrev tables : RoleTables
tables = record {
  roles = role 1 "RAD" ∷ role 2 "FINANCE" ∷ [];
  permissions =
      permission 10 "PROJECT_READ" ∷ permission 11 "PROJECT_EDIT" ∷ permission 12 "PAY" ∷ [];
  role_permissions =
      record { role_id = 1; permission_id = 10 } ∷ record { role_id = 2; permission_id = 12 } ∷ [];
}

abbrev answer : Replaced
answer = record { permissions = 10 ∷ 11 ∷ []; ignored_permission_ids = 99 ∷ [] }

abbrev replaced : RoleTables
replaced = record tables {
  role_permissions =
      record { role_id = 2; permission_id = 12 }
      ∷ record { role_id = 1; permission_id = 10 }
      ∷ record { role_id = 1; permission_id = 11 }
      ∷ [];
}

replacement : replace_role_permissions 1 (11 ∷ 99 ∷ 10 ∷ 11 ∷ []) tables ≡ ok (answer, replaced)
unfolding replace_role_permissions
replacement = refl

replace_role_permissions_lem_example :
    (mem_nat 12 (find_role_permissions 2 replaced) ≡ mem_nat 12 (find_role_permissions 2 tables))
    × (mem_nat 12 answer.permissions ≡ false)
    × (mem_nat 12 answer.ignored_permission_ids ≡ false)
replace_role_permissions_lem_example =
    replace_role_permissions_lem 1 (11 ∷ 99 ∷ 10 ∷ 11 ∷ []) tables replaced answer 2 12 replacement

taken : create_role 3 "RAD" none tables ≡ err conflict
unfolding create_role
taken = refl

abbrev with_dean : RoleTables
with_dean = record tables { roles = role 1 "RAD" ∷ role 2 "FINANCE" ∷ role 3 "DEAN" ∷ [] }

dean : create_role 3 "DEAN" none tables ≡ ok with_dean
unfolding create_role
dean = refl

rad_known : find_role_by_id 1 with_dean ≡ some (role 1 "RAD")
unfolding find_role_by_id
rad_known = refl

named : ◌≢◌ {A = String} "DEAN" ""
named e = cc

taken_name_refused_example :
    (create_role 4 "DEAN" none with_dean ≡ err conflict)
    × (update_role 1 (record { name = given (some "DEAN"); description = omitted }) with_dean
        ≡ err conflict)
taken_name_refused_example =
    taken_name_refused (role 3 "DEAN") (role 1 "RAD") 4 1 none omitted
      (((refl, tt), (tt, tt)), (((λ e. omega (arith, e)), tt), (tt, tt)))
      (next here
        (role_created 3 "DEAN" none ((λ e. omega (arith, e)), ((λ e. omega (arith, e)), tt)) dean))
      (Memᴰ.tail (Memᴰ.tail (Memᴰ.head refl))) rad_known (λ e. omega (arith, e)) named

abbrev student : AuthUser
student = record { id = 4; role = "STUDENT"; department = some "CS" }

abbrev own_project : AccessContext
own_project = record {
  project = some (record { department = some "CS"; project_program = some "UG" });
  project_member = some (record { user_id = 4; role = some "PI" });
}

abbrev other_project : AccessContext
other_project = record {
  project = some (record { department = some "Physics"; project_program = some "UG" });
  project_member = none;
}

can_read : can student ("budget:approve" ∷ "project:read" ∷ []) (some own_project) ≡ true
unfolding can role_permissions_of
can_read = refl

cannot_read : can student ("project:read" ∷ []) (some other_project) ≡ false
unfolding can role_permissions_of
cannot_read = refl

can_iff_example : (can student ("project:read" ∷ []) (some other_project) ≡ true) ↔ (
    HasPermission "STUDENT" ("project:read" ∷ [])
    × InDepartment student (some other_project)
    × IsOwnMembership student (some other_project))
can_iff_example = can_iff student ("project:read" ∷ []) (some other_project)
