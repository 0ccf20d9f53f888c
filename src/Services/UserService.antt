-- ===== src/Services/UserService.antt =====
-- app/services/user_service.py. `meanwhile` is what other transactions commit while a call awaits
-- the password hash, which runs on a worker thread.
pub mod Lookups
pub mod Register
pub mod Tests
pub mod Closing
pub mod Superadmin
use fastapi_template.Prelude.{
  ℕ, String, Bool, false, not, ◌&&◌, Option, none, some, List, [], ◌∷◌, ◌++◌, map, str_eq, ◌==◌,
  if◌then◌else◌, is_some, any, select,
}
use fastapi_template.Errors.{
  auth_insufficient_permissions, user_not_found, user_email_taken, user_password_incorrect,
  user_self_admin_role, user_close_own_account, role_not_found, Exception, integrity_error, ok,
  not_found_of, conflict_of, forbidden_of,
}
use fastapi_template.Models.{user_role, Db, Role, admin_role, UserRow, User}
use fastapi_template.Exec.{Exec, pure, raise, refuse_if, ◌>>=◌, ◌>>◌, try_catch}
use fastapi_template.Services.Support.{PasswordHash, or_not_found}
use fastapi_template.Repositories.Users.{unique_violation}
use fastapi_template.Authorization.{users, outranks}
use fastapi_template.Repositories.Users
use fastapi_template.Repositories.Roles
use fastapi_template.Repositories.Items

pub record UserCreate : Type 0 where
  pub email : String
  pub password : String
  pub name : Option String

-- UserUpdate; `none` is a field that was not sent, and a name may be sent as null.
pub record UserUpdate : Type 0 where
  pub email : Option String
  pub name : Option (Option String)

abbrev pub email_taken : Exception
email_taken = conflict_of "Email already registered" user_email_taken

abbrev pub role_missing : Exception
role_missing = not_found_of "Role not found" role_not_found

abbrev pub user_missing : Exception
user_missing = not_found_of "User not found" user_not_found

-- `_as_conflict`: only a unique violation is a conflict.
unfoldable pub as_conflict : Exception → Exception
as_conflict (integrity_error sqlstate) =
    if str_eq sqlstate unique_violation then email_taken else integrity_error sqlstate
as_conflict e = e

-- `_role`
unfoldable pub role_named : String → Exec Db Role
role_named name = do
  found ← Roles.get_by_name name
  or_not_found found "Role not found" role_not_found

-- `_role_by_id`
unfoldable pub role_by_id : ℕ → Exec Db Role
role_by_id role_id = do
  found ← Roles.get role_id
  or_not_found found "Role not found" role_not_found

unfoldable pub get : ℕ → Exec Db User
get user_id = do found ← Users.get user_id; or_not_found found "User not found" user_not_found

abbrev pub commit_of_others : (Db → Db) → Exec Db (Unit {0})
commit_of_others meanwhile db = (ok tt, meanwhile db)

abbrev pub new_row : UserCreate → String → Role → ℕ → UserRow
new_row sent hashed role id = record {
  id = id;
  email = sent.email;
  name = sent.name;
  hashed_password = hashed;
  email_verified_at = none;
  password_changed_at = none;
  deleted_at = none;
  role_ids = role.id ∷ [];
}

unfoldable pub register : PasswordHash → (Db → Db) → UserCreate → Exec Db User
register passwords meanwhile sent = do
  taken ← Users.get_by_email sent.email
  refuse_if (is_some taken) email_taken
  occupied ← Users.exists_any
  commit_of_others meanwhile
  role ← role_named (if not occupied then admin_role else user_role)
  try_catch (Users.create (new_row sent (passwords.hash sent.password) role))
      (λ e. raise (as_conflict e))

-- `email is not None and email != user.email`
abbrev pub moves_to : Option String → String → Bool
moves_to none old = false
moves_to (some email) old = not (str_eq email old)

abbrev pub set_email : Option String → UserRow → UserRow
set_email none row = row
set_email (some email) row = record row { email = email }

abbrev pub set_name : Option (Option String) → UserRow → UserRow
set_name none row = row
set_name (some name) row = record row { name = name }

-- The check of `update` on a new address.
unfoldable pub refuse_taken : Option String → Exec Db (Unit {0})
refuse_taken none = pure tt
refuse_taken (some email) = do
  taken ← Users.get_by_email email
  refuse_if (is_some taken) email_taken

unfoldable pub update : User → UserUpdate → Exec Db User
update user sent = do
  (if moves_to sent.email user.email then refuse_taken sent.email else pure tt)
  try_catch (Users.save (record user { row = set_name sent.name (set_email sent.email user.row) }))
      (λ e. raise (as_conflict e))

abbrev pub holds : User → Role → Bool
holds user role = any (λ held. str_eq held.name role.name) user.roles

abbrev pub with_role : User → Role → User
with_role user role = record {
  row = record user.row { role_ids = user.role_ids ++ role.id ∷ [] };
  roles = user.roles ++ role ∷ [];
}

unfoldable pub add_role : ℕ → String → Exec Db User
add_role user_id role_name = do
  user ← get user_id
  role ← role_named role_name
  (if holds user role then pure user else Users.save (with_role user role))

abbrev pub own_admin_role : Exception
own_admin_role = forbidden_of "You cannot drop your own superadmin role" user_self_admin_role

abbrev pub without_role : User → Role → User
without_role user role =
    let kept : List Role = select (λ held. not (str_eq held.name role.name)) user.roles in
    record { row = record user.row { role_ids = map (λ r. r.id) kept }; roles = kept }

unfoldable pub remove_role : User → ℕ → String → Exec Db User
remove_role actor user_id role_name = do
  refuse_if (actor.id == user_id && str_eq role_name admin_role) own_admin_role
  user ← get user_id
  role ← role_named role_name
  (if not (holds user role) then pure user else Users.save (without_role user role))

unfoldable pub add_role_by_id : ℕ → ℕ → Exec Db User
add_role_by_id user_id role_id = do role ← role_by_id role_id; add_role user_id role.name

unfoldable pub remove_role_by_id : User → ℕ → ℕ → Exec Db User
remove_role_by_id actor user_id role_id = do
  role ← role_by_id role_id
  remove_role actor user_id role.name

unfoldable pub list_all : ℕ → ℕ → Exec Db (List User × ℕ)
list_all limit offset = do
  users ← Users.list_all limit offset
  total ← Users.count_all
  pure (users, total)

-- `_close`, with the two readings of the clock.
unfoldable pub close : User → ℕ → ℕ → Exec Db (Unit {0})
close user now later = do Items.soft_delete_for_owner user.id now; Users.soft_delete user later

unfoldable pub deactivate : PasswordHash → User → String → ℕ → ℕ → Exec Db (Unit {0})
deactivate passwords user password now later = do
  refuse_if (not (passwords.verify password user.hashed_password))
      (forbidden_of "Password is incorrect" user_password_incorrect)
  close user now later

unfoldable pub remove : User → ℕ → ℕ → ℕ → Exec Db (Unit {0})
remove actor user_id now later = do
  target ← get user_id
  refuse_if (target.id == actor.id)
      (forbidden_of "Close your own account from your profile" user_close_own_account)
  refuse_if (not (outranks actor target))
      (forbidden_of "Insufficient permissions" auth_insufficient_permissions)
  close target now later
