-- ===== src/Deps.antt =====
-- Who calls: `get_actor`, `forbid_impersonation` and `require_permission` of app/api/deps.py. The
-- binding of the structured log is not modelled.
pub mod Actors
pub mod Reading
pub mod Passwords
mod Tests
use fastapi_template.Prelude.{
  ℕ, String, Bool, true, false, not, ◌&&◌, Option, none, some, ltb, if◌then◌else◌, is_some,
}
use fastapi_template.Errors.{
  auth_impersonation_revoked, auth_impersonation_blocked, not_found_error, Exception, domain,
  forbidden_of,
}
use fastapi_template.Models.{Db, Scope, User}
use fastapi_template.Exec.{Exec, pure, raise, refuse_if, ◌>>=◌, ◌>>◌, try_catch}
use fastapi_template.Security.{seconds, Crypto, invalid_credentials, decode_access_token}
use fastapi_template.Audit.{AuditContext, bind_actor}
use fastapi_template.Authorization.{is_blocked, scope_for, may_impersonate}
use fastapi_template.Services.AuthService.{insufficient_permissions, of_result}
use fastapi_template.Services.UserService

pub record Actor : Type 0 where
  pub user : User
  pub impersonator : Option User

abbrev pub impersonator_id : Actor → Option ℕ
impersonator_id actor = elim actor.impersonator [ none ↦ none | some user ↦ some user.id ]

-- `_password_moved_after`, the issue time in whole seconds
unfoldable pub password_moved_after : User → ℕ → Bool
password_moved_after user issued_at = elim user.password_changed_at [
  | none ↦ false
  | some changed ↦ ltb issued_at (seconds changed)
]

abbrev pub is_not_found : Exception → Bool
is_not_found (domain e) = elim e.cls [ not_found_error ↦ true | _ ↦ false ]
is_not_found _ = false

abbrev pub hide_missing : Exception → Exec Db User
hide_missing e = raise (if is_not_found e then invalid_credentials else e)

abbrev pub load_account : ℕ → Option ℕ → Exec Db User
load_account issued_at none = raise invalid_credentials
load_account issued_at (some user_id) = do
  user ← try_catch (UserService.get user_id) hide_missing
  refuse_if (password_moved_after user issued_at) invalid_credentials
  pure user

abbrev pub impersonation_revoked : Exception
impersonation_revoked = forbidden_of "Impersonation is no longer allowed" auth_impersonation_revoked

abbrev pub impersonation_blocked : Exception
impersonation_blocked = forbidden_of "Not allowed while impersonating" auth_impersonation_blocked

abbrev pub may_go_on : User → Option User → Bool
may_go_on user none = true
may_go_on user (some impersonator) = may_impersonate impersonator user

module _ (c : Crypto) where
  -- `_load`
  unfoldable pub load : String → ℕ → Exec Db User
  load subject issued_at = load_account issued_at (c.int subject)

  abbrev pub load_impersonator : Option String → ℕ → Exec Db (Option User)
  load_impersonator none issued_at = pure none
  load_impersonator (some subject) issued_at = do user ← load subject issued_at; pure (some user)

  unfoldable pub get_actor : c.Text → ℕ → Exec Db Actor
  get_actor token now = do
    claims ← of_result (decode_access_token c now token)
    user ← load claims.subject claims.issued_at
    impersonator ← load_impersonator claims.impersonator claims.issued_at
    refuse_if (not (may_go_on user impersonator)) impersonation_revoked
    pure (record { user = user; impersonator = impersonator })

-- `bind_actor` of the request's audit context, in `get_actor`
abbrev pub bound : Actor → Option AuditContext → Option AuditContext
bound actor context = bind_actor (some actor.user.id) (impersonator_id actor) context

unfoldable pub forbid_impersonation : Actor → Exec Db (Unit {0})
forbid_impersonation actor = refuse_if (is_some actor.impersonator) impersonation_blocked

abbrev pub or_insufficient : Option Scope → Exec Db Scope
or_insufficient none = raise insufficient_permissions
or_insufficient (some scope) = pure scope

-- `guard` of `require_permission`
unfoldable pub guard : String → String → Actor → Exec Db Scope
guard resource action actor = do
  refuse_if (is_some actor.impersonator && is_blocked (resource, action)) impersonation_blocked
  or_insufficient (scope_for actor.user resource action)
