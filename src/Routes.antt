-- ===== src/Routes.antt =====
-- app/api/v1: what a route does before its body (app/api/v1/routing.py, the dependencies of
-- app/api/deps.py), and what it answers. Rate limits and the checks of pydantic are not modelled.
pub mod Users
pub mod Auth
pub mod Items
pub mod Roles
pub mod Logs
pub mod Calls
pub mod Attachments
pub mod Admission
mod Tests
use fastapi_template.Prelude.{ℕ, String, Option, none, some, List, [], ◌∷◌, map, Bytes}
use fastapi_template.Models.{
  Item, Attachment, UserPreferences, RequestLog, AuditLog, Db, Scope, Permission, Role, User,
}
use fastapi_template.Exec.{Exec, pure, ◌>>=◌, ◌>>◌}
use fastapi_template.Services.AuthService.{TokenPair, ImpersonationGrant, Deployment}
use fastapi_template.Features.{Feature, require_feature}
use fastapi_template.Http.Concurrency.{Decimal}
use fastapi_template.Repositories.Cursor.{CursorCodec}
use fastapi_template.Services.SingleUseTokens.{Issuer}
use fastapi_template.Audit.{AuditContext}
use fastapi_template.Services.PreferencesService.{AccountFeaturesRead}
use fastapi_template.Services.RoleService.{GrantRead}
use fastapi_template.Deps.{Actor, get_actor, forbid_impersonation, guard}
use fastapi_template.Services.PasswordReset.{Mail}

-- The settings that a route reads, beside what the services are built with
pub record Setting : Type 1 where
  pub deployment : Deployment
  pub flags : String
  pub decimal : Decimal
  pub codec : CursorCodec
  pub verification : Issuer

-- What comes with a request: its bearer token, the time at which it is read, and the audit context.
pub record Caller (Text : Type 0) : Type 0 where
  pub token : Text
  pub now : ℕ
  pub context : Option AuditContext

-- UserRead of app/schemas/user.py
pub record UserRead : Type 0 where
  pub id : ℕ
  pub email : String
  pub name : Option String
  pub roles : List String
  pub email_verified_at : Option ℕ

-- read_the_role_names
abbrev pub user_read_of : User → UserRead
user_read_of user = record {
  id = user.id;
  email = user.email;
  name = user.name;
  roles = map (λ role. role.name) user.roles;
  email_verified_at = user.email_verified_at;
}

pub record PageParams : Type 0 where
  pub limit : ℕ
  pub offset : ℕ

-- The bodies that the routes answer with; an item comes with its ETag header.
pub data Response (Text : Type 0) : Type 0 where
  no_content : Response Text
  user_read : UserRead → Response Text
  user_list : List UserRead → Response Text
  user_page : List UserRead → ℕ → PageParams → Response Text
  preferences_read : UserPreferences → Response Text
  account_features : AccountFeaturesRead → Response Text
  grant_list : List GrantRead → Response Text
  feature_list : List String → Option (List String) → Response Text
  role_read : Role → Response Text
  role_list : List Role → Response Text
  permission_list : List Permission → Response Text
  item_read : Item → String → Response Text
  item_page : List Item → ℕ → PageParams → Response Text
  request_read : RequestLog → Response Text
  request_page : List RequestLog → ℕ → Option String → Response Text
  audit_read : AuditLog → Response Text
  audit_page : List AuditLog → ℕ → Option String → Response Text
  mail_asked : Option Mail → Response Text
  token_pair : TokenPair Text → Response Text
  impersonation_token : ImpersonationGrant Text → UserRead → UserRead → Response Text
  attachment_read : Attachment → Response Text
  attachment_list : List Attachment → Response Text
  download : Bytes → String → List ℕ → Response Text

-- The entries of `dependencies=[…]`: require_permission and ForbidImpersonation
pub data Guard : Type 0 where
  permission : String → String → Guard
  not_impersonating : Guard

abbrev pub check : Guard → Actor → Exec Db (Unit {0})
check (permission resource action) actor = do scope ← guard resource action actor; pure tt
check not_impersonating actor = forbid_impersonation actor

unfoldable pub check_all : List Guard → Actor → Exec Db (Unit {0})
check_all [] actor = pure tt
check_all (g ∷ gs) actor = do check g actor; check_all gs actor

module _ (s : Setting) (caller : Caller s.deployment.crypto.Text) where
  abbrev pub feature_on : Option Feature → Exec Db (Unit {0})
  feature_on none = pure tt
  feature_on (some feature) = require_feature s.deployment.unicode s.flags feature

  -- A route of protected_router: its feature, the account, its dependencies, and its body.
  unfoldable pub protected :
      {A : Type 0} → Option Feature → List Guard → (Actor → Exec Db A) → Exec Db A
  protected feature guards body = do
    feature_on feature
    actor ← get_actor s.deployment.crypto caller.token caller.now
    check_all guards actor
    body actor

  -- The same, where the body takes the scope of one permission.
  unfoldable pub protected_scoped :
      {A : Type 0} → Option Feature → String → String → (User → Scope → Exec Db A) → Exec Db A
  protected_scoped feature resource action body = do
    feature_on feature
    actor ← get_actor s.deployment.crypto caller.token caller.now
    scope ← guard resource action actor
    body actor.user scope

  abbrev pub Answer : Type 0
  Answer = Exec Db (Response s.deployment.crypto.Text)
