-- ===== src/Routes/Admission/Every.antt =====
-- Every private route of app/api/v1 that works on the database alone is behind its table of permissions.
use fastapi_template.Prelude.{
  ◌≡◌, refl, ◌⊎◌, inl, inr, false, ◌&&◌, none, some, [], ◌∷◌, is_some, All,
}
use fastapi_template.Models.{Db}
use fastapi_template.Routes.{Setting, Caller, permission, not_impersonating}
use fastapi_template.Routes.Calls.{
  Call, read_me, read_my_preferences, read_my_permissions, list_features, update_me,
  update_my_preferences, deactivate_me, list_users, read_user, read_user_features,
  update_user_features, remove_user, add_user_role, remove_user_role, stop_impersonating,
  impersonate, change_password, resend_email_verification, list_items, create_item, get_item,
  update_item, delete_item, list_permissions, list_roles, create_role, read_role, delete_role,
  list_role_members, update_role, add_role_member, remove_role_member, list_requests, get_request,
  list_audit_entries, get_audit_entry, handle, keys_needed, is_personal, feature_needed,
}
use fastapi_template.Routes.Admission.{
  Allows, IsRefused, IsOn, IsCaller, protected-cases, protected_scoped-cases,
}
use fastapi_template.Authorization.{
  request_log, users, roles, feature_flags, audit_log, read_action, create_action, update_action,
  delete_action, impersonate_action,
}
use fastapi_template.Features.{items_feature, request_log_feature, audit_log_feature}
use fastapi_template.Deps.{Actor}
use fastapi_template.Services.UserService.Lookups.{IsConsistent}
use fastapi_template.Routes.Users
use fastapi_template.Routes.Auth
use fastapi_template.Routes.Items
use fastapi_template.Routes.Roles
use fastapi_template.Routes.Logs

module _ (s : Setting) (caller : Caller s.deployment.crypto.Text) (db : Db)
    (con : IsConsistent db) where
  -- What must hold where a call gets through
  abbrev pub IsEntitled : Call → Actor → Type 0
  IsEntitled call actor =
      IsOn s caller db con (feature_needed call)
      × All (Allows actor) (keys_needed call)
      × ((is_personal call && is_some actor.impersonator) ≡ false)

  module _ {X R : Type 0} where
    by_keys :
        {P : Actor → Type 0}
        → X ⊎ ((actor : Actor) × IsCaller s caller db con actor × R × P actor)
        → X ⊎ ((actor : Actor) × IsCaller s caller db con actor × (R × P actor × (false ≡ false)))
    by_keys (inl refused) = inl refused
    by_keys (inr (actor, known, on, passes)) = inr (actor, known, (on, passes, refl))

    by_scope :
        {P : Actor → Type 0}
        → X ⊎ ((actor : Actor) × IsCaller s caller db con actor × R × P actor)
        → X
          ⊎ ((actor : Actor) × IsCaller s caller db con actor
              × (R × (P actor × Unit {0}) × (false ≡ false)))
    by_scope (inl refused) = inl refused
    by_scope (inr (actor, known, on, allowed)) = inr (actor, known, (on, (allowed, tt), refl))

    by_self :
        X
          ⊎ ((actor : Actor) × IsCaller s caller db con actor
              × R
              × ((is_some actor.impersonator ≡ false) × Unit {0}))
        → X
          ⊎ ((actor : Actor) × IsCaller s caller db con actor
              × (R × Unit {0} × (is_some actor.impersonator ≡ false)))
    by_self (inl refused) = inl refused
    by_self (inr (actor, known, on, (self, rest))) = inr (actor, known, (on, rest, self))

  -- Under the unique constraints, every call of such a route either is refused, and leaves the
  -- database as it was, or its token is a valid one of an open account, the feature of the route
  -- is on, that account has some scope for each permission that the table of routes names, none of
  -- them is blocked while someone impersonates it, and nobody impersonates it where the call is
  -- about the account itself.
  pub handle-IsAdmitted :
      (call : Call)
      → IsRefused (handle s caller call) db
        ⊎ ((actor : Actor) × IsCaller s caller db con actor × IsEntitled call actor)
  unfolding handle Auth.change_password Auth.impersonate Auth.resend_email_verification
      Auth.stop_impersonating Items.create_item Items.delete_item Items.get_item Items.list_items
      Items.update_item Logs.get_audit_entry Logs.get_request Logs.list_audit_entries
      Logs.list_requests Roles.add_role_member Roles.create_role Roles.delete_role
      Roles.list_permissions Roles.list_role_members Roles.list_roles Roles.read_role
      Roles.remove_role_member Roles.update_role Users.add_user_role Users.deactivate_me
      Users.list_features Users.list_users Users.read_me Users.read_my_permissions
      Users.read_my_preferences Users.read_user Users.read_user_features Users.remove_user
      Users.remove_user_role Users.update_me Users.update_my_preferences Users.update_user_features
  handle-IsAdmitted read_me = by_keys (protected-cases s caller db con none [] _)
  handle-IsAdmitted read_my_preferences = by_keys (protected-cases s caller db con none [] _)
  handle-IsAdmitted read_my_permissions = by_keys (protected-cases s caller db con none [] _)
  handle-IsAdmitted list_features = by_keys (protected-cases s caller db con none [] _)
  handle-IsAdmitted (update_me sent) =
      by_self (protected-cases s caller db con none (not_impersonating ∷ []) _)
  handle-IsAdmitted (update_my_preferences sent) =
      by_keys (protected-cases s caller db con none [] _)
  handle-IsAdmitted (deactivate_me password now later) =
      by_self (protected-cases s caller db con none (not_impersonating ∷ []) _)
  handle-IsAdmitted (list_users page) =
      by_keys (protected-cases s caller db con none (permission users read_action ∷ []) _)
  handle-IsAdmitted (read_user user_id) =
      by_keys (protected-cases s caller db con none (permission users read_action ∷ []) _)
  handle-IsAdmitted (read_user_features user_id) = by_keys (
      protected-cases s caller db con none
        (permission users read_action ∷ permission feature_flags read_action ∷ []) _)
  handle-IsAdmitted (update_user_features user_id sent) =
      by_keys (protected-cases s caller db con none (permission feature_flags update_action ∷ []) _)
  handle-IsAdmitted (remove_user user_id now later) =
      by_keys (protected-cases s caller db con none (permission users delete_action ∷ []) _)
  handle-IsAdmitted (add_user_role user_id role) =
      by_keys (protected-cases s caller db con none (permission users update_action ∷ []) _)
  handle-IsAdmitted (remove_user_role user_id role) =
      by_keys (protected-cases s caller db con none (permission users update_action ∷ []) _)
  handle-IsAdmitted (stop_impersonating at) = by_keys (protected-cases s caller db con none [] _)
  handle-IsAdmitted (impersonate user_id at mint) =
      by_keys (protected-cases s caller db con none (permission users impersonate_action ∷ []) _)
  handle-IsAdmitted (change_password old new changed_at revoked_at) =
      by_self (protected-cases s caller db con none (not_impersonating ∷ []) _)
  handle-IsAdmitted (resend_email_verification now token inserted) =
      by_self (protected-cases s caller db con none (not_impersonating ∷ []) _)
  handle-IsAdmitted (list_items page) =
      by_keys (protected-cases s caller db con (some items_feature) [] _)
  handle-IsAdmitted (create_item sent) =
      by_keys (protected-cases s caller db con (some items_feature) [] _)
  handle-IsAdmitted (get_item item_id) =
      by_keys (protected-cases s caller db con (some items_feature) [] _)
  handle-IsAdmitted (update_item item_id sent if_match) =
      by_keys (protected-cases s caller db con (some items_feature) [] _)
  handle-IsAdmitted (delete_item item_id if_match now) =
      by_keys (protected-cases s caller db con (some items_feature) [] _)
  handle-IsAdmitted list_permissions =
      by_keys (protected-cases s caller db con none (permission roles read_action ∷ []) _)
  handle-IsAdmitted list_roles =
      by_keys (protected-cases s caller db con none (permission roles read_action ∷ []) _)
  handle-IsAdmitted (create_role sent) =
      by_keys (protected-cases s caller db con none (permission roles create_action ∷ []) _)
  handle-IsAdmitted (read_role role_id) =
      by_keys (protected-cases s caller db con none (permission roles read_action ∷ []) _)
  handle-IsAdmitted (delete_role role_id) =
      by_keys (protected-cases s caller db con none (permission roles delete_action ∷ []) _)
  handle-IsAdmitted (list_role_members role_id) =
      by_keys (protected-cases s caller db con none (permission roles read_action ∷ []) _)
  handle-IsAdmitted (update_role role_id sent) =
      by_keys (protected-cases s caller db con none (permission roles update_action ∷ []) _)
  handle-IsAdmitted (add_role_member role_id user_id) =
      by_keys (protected-cases s caller db con none (permission roles update_action ∷ []) _)
  handle-IsAdmitted (remove_role_member role_id user_id) =
      by_keys (protected-cases s caller db con none (permission roles update_action ∷ []) _)
  handle-IsAdmitted (list_requests query) =
      by_scope (
        protected_scoped-cases s caller db con (some request_log_feature) request_log read_action _)
  handle-IsAdmitted (get_request request_id) =
      by_scope (
        protected_scoped-cases s caller db con (some request_log_feature) request_log read_action _)
  handle-IsAdmitted (list_audit_entries query) =
      by_scope
        (protected_scoped-cases s caller db con (some audit_log_feature) audit_log read_action _)
  handle-IsAdmitted (get_audit_entry entry_id) =
      by_scope
        (protected_scoped-cases s caller db con (some audit_log_feature) audit_log read_action _)
