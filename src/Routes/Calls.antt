-- ===== src/Routes/Calls.antt =====
-- The private routes of app/api/v1/router.py, with what each asks for.
use fastapi_template.Prelude.{ℕ, String, Bool, true, false, Option, none, some, List, [], ◌∷◌}
use fastapi_template.Routes.{Setting, Caller, PageParams, Answer}
use fastapi_template.Routes.Attachments.{FileSetting, FileAnswer}
use fastapi_template.Services.AttachmentService.{Upload, on_db}
use fastapi_template.Authorization.{
  request_log, users, roles, feature_flags, audit_log, read_action, create_action, update_action,
  delete_action, impersonate_action, Key,
}
use fastapi_template.Features.{Feature, items_feature, request_log_feature, audit_log_feature}
use fastapi_template.Services.UserService.{UserUpdate}
use fastapi_template.Services.PreferencesService.{PreferencesUpdate}
use fastapi_template.Services.ItemService.{ItemCreate, ItemUpdate}
use fastapi_template.Services.RoleService.{RoleWrite}
use fastapi_template.Repositories.RequestLogs.{RequestLogQuery}
use fastapi_template.Repositories.AuditLogs.{AuditLogQuery}
use fastapi_template.Security.{Mint}
use fastapi_template.Routes.Users
use fastapi_template.Routes.Auth
use fastapi_template.Routes.Items
use fastapi_template.Routes.Roles
use fastapi_template.Routes.Logs
use fastapi_template.Routes.Attachments

pub data Call : Type 0 where
  read_me read_my_preferences read_my_permissions list_features : Call
  update_me : UserUpdate → Call
  update_my_preferences : PreferencesUpdate → Call
  deactivate_me : String → ℕ → ℕ → Call
  list_users : PageParams → Call
  read_user read_user_features : ℕ → Call
  update_user_features : ℕ → Option String → Call
  remove_user : ℕ → ℕ → ℕ → Call
  add_user_role remove_user_role : ℕ → String → Call
  stop_impersonating : ℕ → Call
  impersonate : ℕ → ℕ → Mint → Call
  change_password : String → String → ℕ → ℕ → Call
  resend_email_verification : ℕ → String → ℕ → Call
  list_items : PageParams → Call
  create_item : ItemCreate → Call
  get_item : ℕ → Call
  update_item : ℕ → ItemUpdate → Option String → Call
  delete_item : ℕ → Option String → ℕ → Call
  list_permissions list_roles : Call
  create_role : RoleWrite → Call
  read_role delete_role list_role_members : ℕ → Call
  update_role : ℕ → RoleWrite → Call
  add_role_member remove_role_member : ℕ → ℕ → Call
  list_requests : RequestLogQuery → Call
  get_request : String → Call
  list_audit_entries : AuditLogQuery → Call
  get_audit_entry : ℕ → Call

module _ (s : Setting) (caller : Caller s.deployment.crypto.Text) where
  unfoldable pub handle : Call → Answer s caller
  handle read_me = Users.read_me s caller
  handle read_my_preferences = Users.read_my_preferences s caller
  handle read_my_permissions = Users.read_my_permissions s caller
  handle list_features = Users.list_features s caller
  handle (update_me sent) = Users.update_me s caller sent
  handle (update_my_preferences sent) = Users.update_my_preferences s caller sent
  handle (deactivate_me password now later) = Users.deactivate_me s caller password now later
  handle (list_users page) = Users.list_users s caller page
  handle (read_user user_id) = Users.read_user s caller user_id
  handle (read_user_features user_id) = Users.read_user_features s caller user_id
  handle (update_user_features user_id sent) = Users.update_user_features s caller user_id sent
  handle (remove_user user_id now later) = Users.remove_user s caller user_id now later
  handle (add_user_role user_id role) = Users.add_user_role s caller user_id role
  handle (remove_user_role user_id role) = Users.remove_user_role s caller user_id role
  handle (stop_impersonating at) = Auth.stop_impersonating s caller at
  handle (impersonate user_id at mint) = Auth.impersonate s caller user_id at mint
  handle (change_password old new changed_at revoked_at) =
      Auth.change_password s caller old new changed_at revoked_at
  handle (resend_email_verification now token inserted) =
      Auth.resend_email_verification s caller now token inserted
  handle (list_items page) = Items.list_items s caller page
  handle (create_item sent) = Items.create_item s caller sent
  handle (get_item item_id) = Items.get_item s caller item_id
  handle (update_item item_id sent if_match) = Items.update_item s caller item_id sent if_match
  handle (delete_item item_id if_match now) = Items.delete_item s caller item_id if_match now
  handle list_permissions = Roles.list_permissions s caller
  handle list_roles = Roles.list_roles s caller
  handle (create_role sent) = Roles.create_role s caller sent
  handle (read_role role_id) = Roles.read_role s caller role_id
  handle (delete_role role_id) = Roles.delete_role s caller role_id
  handle (list_role_members role_id) = Roles.list_role_members s caller role_id
  handle (update_role role_id sent) = Roles.update_role s caller role_id sent
  handle (add_role_member role_id user_id) = Roles.add_role_member s caller role_id user_id
  handle (remove_role_member role_id user_id) = Roles.remove_role_member s caller role_id user_id
  handle (list_requests query) = Logs.list_requests s caller query
  handle (get_request request_id) = Logs.get_request s caller request_id
  handle (list_audit_entries query) = Logs.list_audit_entries s caller query
  handle (get_audit_entry entry_id) = Logs.get_audit_entry s caller entry_id

-- What a call needs beyond a session: permissions, by their keys
abbrev pub keys_needed : Call → List Key
keys_needed (list_users page) = (users, read_action) ∷ []
keys_needed (read_user user_id) = (users, read_action) ∷ []
keys_needed (read_user_features user_id) = (users, read_action) ∷ (feature_flags, read_action) ∷ []
keys_needed (update_user_features user_id sent) = (feature_flags, update_action) ∷ []
keys_needed (remove_user user_id now later) = (users, delete_action) ∷ []
keys_needed (add_user_role user_id role) = (users, update_action) ∷ []
keys_needed (remove_user_role user_id role) = (users, update_action) ∷ []
keys_needed (impersonate user_id at mint) = (users, impersonate_action) ∷ []
keys_needed list_permissions = (roles, read_action) ∷ []
keys_needed list_roles = (roles, read_action) ∷ []
keys_needed (create_role sent) = (roles, create_action) ∷ []
keys_needed (read_role role_id) = (roles, read_action) ∷ []
keys_needed (delete_role role_id) = (roles, delete_action) ∷ []
keys_needed (list_role_members role_id) = (roles, read_action) ∷ []
keys_needed (update_role role_id sent) = (roles, update_action) ∷ []
keys_needed (add_role_member role_id user_id) = (roles, update_action) ∷ []
keys_needed (remove_role_member role_id user_id) = (roles, update_action) ∷ []
keys_needed (list_requests query) = (request_log, read_action) ∷ []
keys_needed (get_request request_id) = (request_log, read_action) ∷ []
keys_needed (list_audit_entries query) = (audit_log, read_action) ∷ []
keys_needed (get_audit_entry entry_id) = (audit_log, read_action) ∷ []
keys_needed _ = []

-- The calls that change the account itself: nobody makes them for another.
abbrev pub is_personal : Call → Bool
is_personal (update_me sent) = true
is_personal (deactivate_me password now later) = true
is_personal (change_password old new changed_at revoked_at) = true
is_personal (resend_email_verification now token inserted) = true
is_personal _ = false

-- The feature that must be on
abbrev pub feature_needed : Call → Option Feature
feature_needed (list_items page) = some items_feature
feature_needed (create_item sent) = some items_feature
feature_needed (get_item item_id) = some items_feature
feature_needed (update_item item_id sent if_match) = some items_feature
feature_needed (delete_item item_id if_match now) = some items_feature
feature_needed (list_requests query) = some request_log_feature
feature_needed (get_request request_id) = some request_log_feature
feature_needed (list_audit_entries query) = some audit_log_feature
feature_needed (get_audit_entry entry_id) = some audit_log_feature
feature_needed _ = none

-- The private routes that also reach the store of files
pub data FileCall : Type 0 where
  add_attachment : ℕ → Upload → String → FileCall
  list_attachments download_attachment remove_attachment : ℕ → FileCall

-- Every private route
pub data PrivateCall : Type 0 where
  over_rows : Call → PrivateCall
  over_files : FileCall → PrivateCall

module _ {S : Type 0} (s : Setting) (f : FileSetting S)
    (caller : Caller s.deployment.crypto.Text) where
  unfoldable pub handle_file : FileCall → FileAnswer s f caller
  handle_file (add_attachment item_id upload key) =
      Attachments.add_attachment s f caller item_id upload key
  handle_file (list_attachments item_id) = Attachments.list_attachments s f caller item_id
  handle_file (download_attachment attachment_id) =
      Attachments.download_attachment s f caller attachment_id
  handle_file (remove_attachment attachment_id) =
      Attachments.remove_attachment s f caller attachment_id

  unfoldable pub handle_private : PrivateCall → FileAnswer s f caller
  handle_private (over_rows call) = on_db (handle s caller call)
  handle_private (over_files call) = handle_file call
