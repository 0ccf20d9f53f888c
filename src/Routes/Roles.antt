-- ===== src/Routes/Roles.antt =====
-- app/api/v1/routes/roles.py
use fastapi_template.Prelude.{ℕ, none, [], ◌∷◌, map}
use fastapi_template.Exec.{pure, ◌>>=◌, ◌>>◌}
use fastapi_template.Routes.{
  Setting, Caller, user_read_of, no_content, user_read, user_list, role_read, role_list,
  permission_list, permission, protected, Answer,
}
use fastapi_template.Authorization.{roles, read_action, create_action, update_action, delete_action}
use fastapi_template.Services.RoleService.{RoleWrite, members}
use fastapi_template.Services.RoleService
use fastapi_template.Services.UserService

module _ (s : Setting) (caller : Caller s.deployment.crypto.Text) where
  unfoldable pub list_permissions : Answer s caller
  list_permissions =
      protected s caller none (permission roles read_action ∷ [])
        (λ actor. do found ← RoleService.list_permissions; pure (permission_list found))

  unfoldable pub list_roles : Answer s caller
  list_roles =
      protected s caller none (permission roles read_action ∷ [])
        (λ actor. do found ← RoleService.list_all; pure (role_list found))

  unfoldable pub create_role : RoleWrite → Answer s caller
  create_role sent =
      protected s caller none (permission roles create_action ∷ [])
        (λ actor. do role ← RoleService.create sent; pure (role_read role))

  unfoldable pub read_role : ℕ → Answer s caller
  read_role role_id =
      protected s caller none (permission roles read_action ∷ [])
        (λ actor. do role ← RoleService.get role_id; pure (role_read role))

  unfoldable pub update_role : ℕ → RoleWrite → Answer s caller
  update_role role_id sent =
      protected s caller none (permission roles update_action ∷ [])
        (λ actor. do role ← RoleService.update role_id sent; pure (role_read role))

  unfoldable pub delete_role : ℕ → Answer s caller
  delete_role role_id =
      protected s caller none (permission roles delete_action ∷ [])
        (λ actor. do RoleService.delete role_id; pure no_content)

  unfoldable pub list_role_members : ℕ → Answer s caller
  list_role_members role_id = protected s caller none (permission roles read_action ∷ []) (λ actor.
      do members ← RoleService.members role_id; pure (user_list (map user_read_of members)))

  unfoldable pub add_role_member : ℕ → ℕ → Answer s caller
  add_role_member role_id user_id =
      protected s caller none (permission roles update_action ∷ []) (λ actor. do
        user ← UserService.add_role_by_id user_id role_id
        pure (user_read (user_read_of user)))

  unfoldable pub remove_role_member : ℕ → ℕ → Answer s caller
  remove_role_member role_id user_id =
      protected s caller none (permission roles update_action ∷ []) (λ actor. do
        user ← UserService.remove_role_by_id actor.user user_id role_id
        pure (user_read (user_read_of user)))
