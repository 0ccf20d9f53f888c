-- ===== src/Models/Accounts.antt =====
-- app/models/role.py, app/models/user.py, and SoftDeleteMixin of app/db/mixins.py.
use fastapi_template.Prelude.{ℕ, String, Option, none, some, Bool, true, false, List}

pub data Scope : Type 0 where
  own all : Scope

abbrev pub is_all : Scope → Bool
is_all own = false
is_all all = true

pub record Permission : Type 0 where
  pub id : ℕ
  pub resource : String
  pub action : String

-- A row of role_permissions; the role is the one that holds it.
pub record RolePermission : Type 0 where
  pub permission : Permission
  pub scope : Scope

pub record Role : Type 0 where
  pub id : ℕ
  pub name : String
  pub features : Option String
  pub grants : List RolePermission

-- UserRole
abbrev pub user_role : String
user_role = "user"

abbrev pub admin_role : String
admin_role = "superadmin"

-- A row of users, with the role ids that user_roles holds for it.
pub record UserRow : Type 0 where
  pub id : ℕ
  pub email : String
  pub name : Option String
  pub hashed_password : String
  pub email_verified_at : Option ℕ
  pub password_changed_at : Option ℕ
  pub deleted_at : Option ℕ
  pub role_ids : List ℕ

-- A loaded account: its columns, and the roles that its links name.
pub record User : Type 0 where
  pub row : UserRow
  pub open row use *
  pub roles : List Role

-- SoftDeleteMixin.is_active: the column `deleted_at` is NULL.
abbrev pub is_active : Option ℕ → Bool
is_active none = true
is_active (some at) = false
