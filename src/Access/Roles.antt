-- ===== src/Access/Roles.antt =====
-- The operations on roles of src/access-control/access.service.ts, with
-- src/access-control/access.repository.ts, on src/db/schema/roles.ts.
use crmp_backend.Base.{
  ℕ, String, str_eq, Bool, true, false, not, ◌&&◌, ◌||◌, Option, none, some, List, [], ◌∷◌, ◌++◌,
  ◌==◌, map, filter, find, update_where, mem_nat, is_some, if◌then◌else◌, Given, omitted, given,
  Result, ok, not_found, conflict, internal_server_error, require, or_throw, ◌>>=◌, ◌>>◌,
}

pub record RoleRow : Type 0 where
  pub id : ℕ
  pub name : String
  pub description : Option String

pub record PermissionRow : Type 0 where
  pub id : ℕ
  pub key : String
  pub description : Option String

pub record RolePermission : Type 0 where
  pub role_id : ℕ
  pub permission_id : ℕ

pub record RoleTables : Type 0 where
  pub roles : List RoleRow
  pub permissions : List PermissionRow
  pub role_permissions : List RolePermission

unfoldable pub find_role_by_id : ℕ → RoleTables → Option RoleRow
unfolding find
find_role_by_id role t = find (λ x. x.id == role) t.roles

unfoldable pub find_role_by_name : String → RoleTables → Option RoleRow
unfolding find
find_role_by_name name t = find (λ x. str_eq x.name name) t.roles

-- `description || null`
abbrev pub description_or_null : Option String → Option String
description_or_null none = none
description_or_null (some d) = if str_eq d "" then none else some d

-- `name` is unique.
unfoldable pub is_new_name : String → RoleTables → Bool
unfolding find
is_new_name name t = not (is_some (find (λ (x : RoleRow). str_eq x.name name) t.roles))

unfoldable pub create_role : ℕ → String → Option String → RoleTables → Result RoleTables
unfolding find_role_by_name is_new_name
create_role new_id name description t = do
  require (not (is_some (find_role_by_name name t))) conflict
  require (is_new_name name t) internal_server_error
  ok (record t {
    roles =
        t.roles
        ++ record { id = new_id; name = name; description = description_or_null description } ∷ [];
  })

-- UpdateRoleDto
pub record UpdateRole : Type 0 where
  pub name : Given String
  pub description : Given String

-- `duplicate && duplicate.id !== roleId`
abbrev pub is_other : ℕ → Option RoleRow → Bool
is_other role none = false
is_other role (some x) = not (x.id == role)

-- The test for a duplicate, under `dto.name && dto.name !== current.name`.
unfoldable pub check_name : ℕ → Given String → RoleRow → RoleTables → Result (Unit {0})
unfolding find_role_by_name
check_name role (given (some n)) x t =
    if not (str_eq n "") && not (str_eq n x.name)
    then require (not (is_other role (find_role_by_name n t))) conflict
    else ok tt
check_name role _ x t = ok tt

-- `name` is NOT NULL and unique.
unfoldable pub is_name_free : ℕ → Given String → RoleTables → Bool
unfolding find
is_name_free role omitted t = true
is_name_free role (given none) t = false
is_name_free role (given (some n)) t =
    not (is_some (find (λ (x : RoleRow). str_eq x.name n && not (x.id == role)) t.roles))

abbrev pub new_name : Given String → String → String
new_name (given (some n)) old = n
new_name _ old = old

abbrev pub new_description : Given String → Option String → Option String
new_description omitted old = old
new_description (given d) old = description_or_null d

abbrev pub is_given : {A : Type 0} → Given A → Bool
is_given omitted = false
is_given (given a) = true

-- An UPDATE without columns is an error of the query builder.
unfoldable pub update_role : ℕ → UpdateRole → RoleTables → Result RoleTables
unfolding find_role_by_id check_name is_name_free update_where
update_role role dto t = do
  x ← or_throw (find_role_by_id role t) not_found
  check_name role dto.name x t
  require (is_given dto.name || is_given dto.description) internal_server_error
  require (is_name_free role dto.name t) internal_server_error
  ok (record t {
    roles =
        update_where (λ (y : RoleRow). y.id == role)
          (λ y. record y {
            name = new_name dto.name y.name;
            description = new_description dto.description y.description;
          })
          t.roles;
  })

-- DELETE, with the permissions of the role.
unfoldable pub delete_role : ℕ → RoleTables → Result RoleTables
unfolding find_role_by_id filter
delete_role role t = do
  x ← or_throw (find_role_by_id role t) not_found
  ok (record t {
    roles = filter (λ (y : RoleRow). not (y.id == role)) t.roles;
    role_permissions = filter (λ (y : RolePermission). not (y.role_id == role)) t.role_permissions;
  })

-- `Array.from(new Set(ids))`
unfoldable pub distinct_after : List ℕ → List ℕ → List ℕ
distinct_after seen [] = []
distinct_after seen (x ∷ xs) =
    let repeated = distinct_after seen xs in
    let fresh = x ∷ distinct_after (x ∷ seen) xs in if mem_nat x seen then repeated else fresh

unfoldable pub find_permissions_by_ids : List ℕ → RoleTables → List ℕ
unfolding filter
find_permissions_by_ids ids t =
    map (λ (x : PermissionRow). x.id) (filter (λ x. mem_nat x.id ids) t.permissions)

-- The ids of a role's permissions.
unfoldable pub find_role_permissions : ℕ → RoleTables → List ℕ
unfolding filter
find_role_permissions role t =
    map (λ (x : RolePermission). x.permission_id)
      (filter
        (λ x.
          x.role_id == role
          && is_some (find (λ (y : PermissionRow). y.id == x.permission_id) t.permissions))
        t.role_permissions)

abbrev pub inserted : ℕ → List ℕ → List RolePermission
inserted role ids = map (λ p. record { role_id = role; permission_id = p }) ids

-- The answer: the role's permissions, and the ids that were ignored.
pub record Replaced : Type 0 where
  pub permissions : List ℕ
  pub ignored_permission_ids : List ℕ

abbrev pub with_permissions : ℕ → List ℕ → RoleTables → RoleTables
with_permissions role ids t = record t {
  role_permissions =
      filter (λ (y : RolePermission). not (y.role_id == role)) t.role_permissions
      ++ inserted role ids;
}

unfoldable pub replace_role_permissions : ℕ → List ℕ → RoleTables → Result (Replaced × RoleTables)
unfolding find_role_by_id distinct_after find_permissions_by_ids find_role_permissions
replace_role_permissions role ids t = do
  x ← or_throw (find_role_by_id role t) not_found
  let unique = distinct_after [] ids
  let existing = find_permissions_by_ids unique t
  let left = with_permissions role existing t
  ok (
    record {
      permissions = find_role_permissions role left;
      ignored_permission_ids = filter (λ i. not (mem_nat i existing)) unique;
    },
    left,
  )
