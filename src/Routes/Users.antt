-- ===== src/Routes/Users.antt =====
-- app/api/v1/routes/users.py and app/api/v1/routes/features.py
use fastapi_template.Prelude.{ℕ, String, Option, none, some, List, [], ◌∷◌, map, sort_by}
use fastapi_template.Models.{Db}
use fastapi_template.Exec.{Exec, pure, ◌>>=◌, ◌>>◌}
use fastapi_template.Routes.{
  Setting, Caller, user_read_of, PageParams, Response, no_content, user_read, user_page,
  preferences_read, account_features, grant_list, feature_list, permission, not_impersonating,
  protected, Answer,
}
use fastapi_template.Authorization.{users, feature_flags, read_action, update_action, delete_action}
use fastapi_template.Features.{
  Feature, feature_value, enabled_features, inherited_features, feature_le, available_features,
}
use fastapi_template.Services.UserService.{UserCreate, UserUpdate}
use fastapi_template.Services.PreferencesService.{PreferencesUpdate}
use fastapi_template.Services.RoleService
use fastapi_template.Services.PreferencesService
use fastapi_template.Services.EmailVerification
use fastapi_template.Services.UserService

module _ (s : Setting) where
  -- register_user, a public route: what others commit during the hash, and the two times and the
  -- token of the mail that confirms the address.
  unfoldable pub register_user :
      (Db → Db) → UserCreate → ℕ → String → ℕ → Exec Db (Response s.deployment.crypto.Text)
  register_user meanwhile sent now token inserted = do
    user ← UserService.register s.deployment.passwords meanwhile sent
    EmailVerification.request s.verification user now token inserted
    pure (user_read (user_read_of user))

module _ (s : Setting) (caller : Caller s.deployment.crypto.Text) where
  unfoldable pub read_me : Answer s caller
  read_me = protected s caller none [] (λ actor. pure (user_read (user_read_of actor.user)))

  unfoldable pub update_me : UserUpdate → Answer s caller
  update_me sent =
      protected s caller none (not_impersonating ∷ []) (λ actor. do
        user ← UserService.update actor.user sent
        pure (user_read (user_read_of user)))

  unfoldable pub read_my_preferences : Answer s caller
  read_my_preferences =
      protected s caller none []
        (λ actor. do stored ← PreferencesService.get actor.user; pure (preferences_read stored))

  unfoldable pub update_my_preferences : PreferencesUpdate → Answer s caller
  update_my_preferences sent = protected s caller none [] (λ actor. do
    stored ← PreferencesService.update actor.user sent
    pure (preferences_read stored))

  unfoldable pub deactivate_me : String → ℕ → ℕ → Answer s caller
  deactivate_me password now later = protected s caller none (not_impersonating ∷ []) (λ actor. do
    UserService.deactivate s.deployment.passwords actor.user password now later
    pure no_content)

  unfoldable pub read_my_permissions : Answer s caller
  read_my_permissions =
      protected s caller none []
        (λ actor. do grants ← RoleService.effective_grants actor.user; pure (grant_list grants))

  unfoldable pub list_users : PageParams → Answer s caller
  list_users page = protected s caller none (permission users read_action ∷ []) (λ actor. do
    found ← UserService.list_all page.limit page.offset
    pure (user_page (map user_read_of found.0) found.1 page))

  unfoldable pub read_user : ℕ → Answer s caller
  read_user user_id =
      protected s caller none (permission users read_action ∷ [])
        (λ actor. do user ← UserService.get user_id; pure (user_read (user_read_of user)))

  unfoldable pub read_user_features : ℕ → Answer s caller
  read_user_features user_id =
      protected s caller none
        (permission users read_action ∷ permission feature_flags read_action ∷ [])
        (λ actor. do
          features ←
              PreferencesService.features_for (available_features s.deployment.unicode s.flags)
                user_id
          pure (account_features features))

  unfoldable pub update_user_features : ℕ → Option String → Answer s caller
  update_user_features user_id sent =
      protected s caller none (permission feature_flags update_action ∷ []) (λ actor. do
        features ←
            PreferencesService.update_features_for (available_features s.deployment.unicode s.flags)
              user_id sent
        pure (account_features features))

  unfoldable pub remove_user : ℕ → ℕ → ℕ → Answer s caller
  remove_user user_id now later =
      protected s caller none (permission users delete_action ∷ [])
        (λ actor. do UserService.remove actor.user user_id now later; pure no_content)

  unfoldable pub add_user_role : ℕ → String → Answer s caller
  add_user_role user_id role =
      protected s caller none (permission users update_action ∷ [])
        (λ actor. do user ← UserService.add_role user_id role; pure (user_read (user_read_of user)))

  unfoldable pub remove_user_role : ℕ → String → Answer s caller
  remove_user_role user_id role_name =
      protected s caller none (permission users update_action ∷ []) (λ actor. do
        user ← UserService.remove_role actor.user user_id role_name
        pure (user_read (user_read_of user)))

  abbrev pub sorted_values : List Feature → List String
  sorted_values features = map feature_value (sort_by feature_le features)

  abbrev pub sorted_inherited : Option (List Feature) → Option (List String)
  sorted_inherited none = none
  sorted_inherited (some features) = some (sorted_values features)

  unfoldable pub list_features : Answer s caller
  list_features = protected s caller none [] (λ actor.
      let served = enabled_features s.deployment.unicode s.flags in
      pure (
        feature_list (sorted_values served) (
          sorted_inherited (
            inherited_features s.deployment.unicode (map (λ role. role.features) actor.user.roles)
              served))))
