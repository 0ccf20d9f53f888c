-- ===== src/Services/RoleService.antt =====
-- app/services/role_service.py, with GrantWrite and RoleWrite of app/schemas/role.py.
pub mod Constraints
pub mod BuiltIn
pub mod Administrator
mod Tests
use fastapi_template.Prelude.{
  ℕ, String, Bool, false, not, ◌||◌, Option, none, some, List, [], ◌∷◌, map, str_eq, ltb, ◌==◌,
  if◌then◌else◌, is_some,
}
use fastapi_template.Errors.{
  role_not_found, role_name_taken, role_admin_immutable, role_built_in, role_has_accounts,
  permission_not_found, Exception, conflict_of, forbidden_of,
}
use fastapi_template.Models.{
  Db, Scope, all, Permission, RolePermission, Role, user_role, admin_role, User,
}
use fastapi_template.Exec.{Exec, pure, refuse_if, ◌>>=◌, ◌>>◌}
use fastapi_template.Services.Support.{or_not_found}
use fastapi_template.Authorization.{Key, is_superuser, granted}
use fastapi_template.Repositories.Users
use fastapi_template.Repositories.Roles

pub record GrantWrite : Type 0 where
  pub resource : String
  pub action : String
  pub scope : Scope

-- A name that the schema has trimmed, and found not to be blank.
pub record RoleWrite : Type 0 where
  pub name : String
  pub grants : List GrantWrite
  pub features : Option String

abbrev pub name_taken : Exception
name_taken = conflict_of "Role name already in use" role_name_taken

abbrev pub admin_immutable : Exception
admin_immutable = forbidden_of "The administrator role always holds everything" role_admin_immutable

abbrev pub built_in_role : Exception
built_in_role = forbidden_of "This role is part of the deployment" role_built_in

abbrev pub has_accounts : Exception
has_accounts = conflict_of "This role still has accounts" role_has_accounts

-- role.name in BUILT_IN
abbrev pub is_built_in : String → Bool
is_built_in name = str_eq name user_role || str_eq name admin_role

unfoldable pub get : ℕ → Exec Db Role
get role_id = do found ← Roles.get role_id; or_not_found found "Role not found" role_not_found

unfoldable pub members : ℕ → Exec Db (List User)
members role_id = do role ← get role_id; Users.list_for_role role.id

-- `_grants`, in order; the first permission that is missing ends it.
unfoldable pub grants_of : List GrantWrite → Exec Db (List RolePermission)
grants_of [] = pure []
grants_of (wanted ∷ rest) = do
  found ← Roles.get_permission wanted.resource wanted.action
  permission ← or_not_found found "Permission not found" permission_not_found
  others ← grants_of rest
  pure (record { permission = permission; scope = wanted.scope } ∷ others)

abbrev pub new_role : RoleWrite → List RolePermission → ℕ → Role
new_role sent grants id = record {
  id = id;
  name = sent.name;
  features = sent.features;
  grants = grants;
}

unfoldable pub create : RoleWrite → Exec Db Role
create sent = do
  taken ← Roles.get_by_name sent.name
  refuse_if (is_some taken) name_taken
  grants ← grants_of sent.grants
  Roles.create (new_role sent grants)

-- taken is not None and taken.id != role.id
abbrev pub is_other : Role → Option Role → Bool
is_other role none = false
is_other role (some taken) = not (taken.id == role.id)

unfoldable pub update : ℕ → RoleWrite → Exec Db Role
update role_id sent = do
  role ← get role_id
  refuse_if (str_eq role.name admin_role) admin_immutable
  taken ← Roles.get_by_name sent.name
  refuse_if (is_other role taken) name_taken
  grants ← grants_of sent.grants
  Roles.save (new_role sent grants role.id)

unfoldable pub delete : ℕ → Exec Db (Unit {0})
delete role_id = do
  role ← get role_id
  refuse_if (is_built_in role.name) built_in_role
  accounts ← Users.count_for_role role.id
  refuse_if (ltb 0 accounts) has_accounts
  Roles.remove role

unfoldable pub list_all : Exec Db (List Role)
list_all = Roles.list_all

unfoldable pub list_permissions : Exec Db (List Permission)
list_permissions = Roles.list_permissions

-- GrantRead, of a flat grant
abbrev pub GrantRead : Type 0
GrantRead = Key × Scope

abbrev pub for_all : List Permission → List GrantRead
for_all permissions = map (λ p. ((p.resource, p.action), all)) permissions

unfoldable pub effective_grants : User → Exec Db (List GrantRead)
effective_grants user =
    if is_superuser user
    then (do permissions ← list_permissions; pure (for_all permissions))
    else pure (granted user)
