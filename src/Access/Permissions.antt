-- ===== src/Access/Permissions.antt =====
-- The permissions of each role: src/access-control/role-permissions.ts, by the values of the enums in
-- role.enum.ts and permission.enum.ts.
use crmp_backend.Base.{String, str_eq, List, [], ◌∷◌, if◌then◌else◌}

-- `RolePermissions[role] || []`
unfoldable pub role_permissions_of : String → List String
role_permissions_of role =
    if str_eq role "STUDENT"
    then "proposal:create" ∷ "proposal:read" ∷ "proposal:update" ∷ "proposal:submit"
      ∷ "proposal:add_member" ∷ "project:create" ∷ "project:read" ∷ "project:update"
      ∷ "project:delete" ∷ "budget:view" ∷ "budget:manage" ∷ []
    else if str_eq role "FACULTY"
    then "proposal:create" ∷ "proposal:read" ∷ "proposal:update" ∷ "proposal:submit"
      ∷ "proposal:add_member" ∷ "evaluation:read" ∷ "project:create" ∷ "project:read"
      ∷ "project:update" ∷ "project:delete" ∷ "budget:view" ∷ "budget:manage" ∷ []
    else if str_eq role "ADVISOR"
    then "proposal:read" ∷ "proposal:request_revision" ∷ "evaluation:read" ∷ "project:read"
      ∷ "project:create" ∷ "project:update" ∷ "project:delete" ∷ "admin:view" ∷ []
    else if str_eq role "EVALUATOR"
    then "proposal:read" ∷ "evaluation:submit" ∷ "evaluation:read" ∷ "project:read"
      ∷ "project:create" ∷ "project:update" ∷ "project:delete" ∷ "admin:view" ∷ []
    else if str_eq role "COORDINATOR"
    then "proposal:read" ∷ "proposal:update" ∷ "proposal:assign_evaluator"
      ∷ "proposal:assign_advisor" ∷ "proposal:approve" ∷ "proposal:reject"
      ∷ "proposal:request_revision" ∷ "evaluation:assign" ∷ "evaluation:read" ∷ "evaluation:submit"
      ∷ "defence:schedule" ∷ "project:create" ∷ "project:read" ∷ "project:update" ∷ "project:delete"
      ∷ "user:read" ∷ "admin:view" ∷ []
    else if str_eq role "DGC_MEMBER"
    then "proposal:read" ∷ "proposal:assign_advisor" ∷ "proposal:approve" ∷ "proposal:reject"
      ∷ "proposal:request_revision" ∷ "evaluation:read" ∷ "defence:schedule" ∷ "project:create"
      ∷ "project:read" ∷ "project:update" ∷ "project:delete" ∷ "admin:view" ∷ []
    else if str_eq role "ADRPM"
    then "proposal:read" ∷ "proposal:approve" ∷ "proposal:reject" ∷ "project:create"
      ∷ "project:read" ∷ "project:update" ∷ "project:delete" ∷ "report:export" ∷ "admin:view" ∷ []
    else if str_eq role "PG_OFFICE"
    then "proposal:read" ∷ "proposal:assign_advisor" ∷ "proposal:approve" ∷ "proposal:reject"
      ∷ "project:create" ∷ "project:read" ∷ "project:update" ∷ "project:delete" ∷ "report:export"
      ∷ "admin:view" ∷ []
    else if str_eq role "RAD"
    then "proposal:read" ∷ "proposal:assign_evaluator" ∷ "proposal:assign_advisor"
      ∷ "proposal:approve" ∷ "proposal:reject" ∷ "evaluation:assign" ∷ "evaluation:read"
      ∷ "defence:schedule" ∷ "project:create" ∷ "project:read" ∷ "project:update" ∷ "project:delete"
      ∷ "budget:view" ∷ "report:export" ∷ "admin:view" ∷ []
    else if str_eq role "FINANCE"
    then "proposal:read" ∷ "project:create" ∷ "project:read" ∷ "project:update" ∷ "project:delete"
      ∷ "budget:view" ∷ "budget:manage" ∷ "budget:approve" ∷ "budget:reject" ∷ "admin:view" ∷ []
    else if str_eq role "VPRTT"
    then "proposal:read" ∷ "proposal:approve" ∷ "proposal:reject" ∷ "project:create"
      ∷ "project:read" ∷ "project:update" ∷ "project:delete" ∷ "report:export" ∷ "admin:view" ∷ []
    else if str_eq role "AC_MEMBER"
    then "proposal:read" ∷ "proposal:approve" ∷ "proposal:reject" ∷ "project:create"
      ∷ "project:read" ∷ "project:update" ∷ "project:delete" ∷ "admin:view" ∷ []
    else if str_eq role "SYSTEM_ADMIN"
    then "proposal:read" ∷ "user:read" ∷ "user:provision" ∷ "user:assign_role" ∷ "role:create"
      ∷ "role:read" ∷ "role:update" ∷ "role:delete" ∷ "permission:assign" ∷ "department:create"
      ∷ "department:read" ∷ "department:update" ∷ "department:delete" ∷ "school:create"
      ∷ "school:read" ∷ "school:update" ∷ "school:delete" ∷ "system:config" ∷ "audit_log:view"
      ∷ "admin:view" ∷ []
    else if str_eq role "EXTERNAL_EXPERT"
    then "proposal:read" ∷ "evaluation:submit" ∷ "evaluation:read" ∷ "project:read" ∷ "admin:view"
      ∷ []
    else []
