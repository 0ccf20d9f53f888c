-- ===== src/Services/AuthService.antt =====
-- app/services/auth_service.py. The audit context of the request, the times that a call reads and the
-- random ids of its tokens are arguments.
pub mod Refreshing
pub mod Admission
pub mod Passwords
pub mod Impersonating
pub mod Tests
use fastapi_template.Prelude.{
  ℕ, ◌+◌, String, Bool, true, not, ◌&&◌, Option, none, some, List, [], ◌∷◌, ◌==◌, is_some,
}
use fastapi_template.Errors.{
  auth_bad_login, auth_current_password_incorrect, auth_impersonation_self,
  auth_insufficient_permissions, auth_email_not_verified, Exception, Result, ok, err, forbidden_of,
  auth_of,
}
use fastapi_template.Models.{
  RefreshToken, AuditAction, impersonate_start, impersonate_stop, Change, Db, User,
}
use fastapi_template.Exec.{Exec, pure, raise, refuse_if, ◌>>=◌, ◌>>◌}
use fastapi_template.Security.{
  seconds, Crypto, Lifetimes, invalid_credentials, Mint, create_access_token, create_refresh_token,
  create_impersonation_token, decode_refresh_token,
}
use fastapi_template.Audit.{AuditContext, impersonation, audit_event, create_entry}
use fastapi_template.Authorization.{may_impersonate}
use fastapi_template.Services.Support.{Unicode, normalize_email, PasswordHash}
use fastapi_template.Services.PasswordReset.{with_password}
use fastapi_template.Repositories.Users
use fastapi_template.Repositories.RefreshTokens

pub record TokenPair (Text : Type 0) : Type 0 where
  pub access_token : Text
  pub refresh_token : Text

-- `expires_in` in seconds
pub record ImpersonationGrant (Text : Type 0) : Type 0 where
  pub access_token : Text
  pub expires_in : ℕ

-- What the service is built with: the password hash, the texts of tokens, the operations on texts
-- that normalize_email takes, and the settings.
pub record Deployment : Type 1 where
  pub passwords : PasswordHash
  pub crypto : Crypto
  pub unicode : Unicode
  pub lifetimes : Lifetimes
  pub require_verified_email : Bool

abbrev pub absent_password : String
absent_password = "absent-user-constant-time-placeholder"

abbrev pub bad_login : Exception
bad_login = auth_of "Incorrect email or password" auth_bad_login

abbrev pub email_not_verified : Exception
email_not_verified = auth_of "Confirm your email address before signing in" auth_email_not_verified

abbrev pub impersonating_self : Exception
impersonating_self = forbidden_of "An account cannot impersonate itself" auth_impersonation_self

abbrev pub insufficient_permissions : Exception
insufficient_permissions = forbidden_of "Insufficient permissions" auth_insufficient_permissions

abbrev pub wrong_current_password : Exception
wrong_current_password =
    forbidden_of "Current password is incorrect" auth_current_password_incorrect

-- What `_issue` reads of its surroundings: two tokens, and the time of the row.
pub record Issuing : Type 0 where
  pub access : Mint
  pub refresh : Mint
  pub stored_at : ℕ

abbrev pub of_result : {S A : Type 0} → Result A → Exec S A
of_result (ok a) = pure a
of_result (err e) = raise e

module _ (d : Deployment) where
  -- The hash that a password is checked against; the one for an absent account is computed once.
  abbrev pub hash_to_check : Option User → String
  hash_to_check none = d.passwords.hash absent_password
  hash_to_check (some user) = user.hashed_password

  abbrev pub pair_for : User → Issuing → TokenPair d.crypto.Text
  pair_for user at = record {
    access_token = create_access_token d.crypto d.lifetimes (d.crypto.str user.id) at.access;
    refresh_token = create_refresh_token d.crypto d.lifetimes (d.crypto.str user.id) at.refresh;
  }

  abbrev pub refresh_row : User → Issuing → ℕ → RefreshToken
  refresh_row user at id = record {
    id = id;
    token_hash = d.crypto.digest (pair_for user at).refresh_token;
    user_id = user.id;
    expires_at = at.stored_at + d.lifetimes.refresh;
    revoked_at = none;
  }

  -- `_issue`
  unfoldable pub issue : User → Issuing → Exec Db (TokenPair d.crypto.Text)
  issue user at = do RefreshTokens.create (refresh_row user at); pure (pair_for user at)

  abbrev pub admit : Option User → Bool → Issuing → Exec Db (TokenPair d.crypto.Text)
  admit none matches at = raise bad_login
  admit (some user) matches at = do
    refuse_if (not matches) bad_login
    refuse_if (d.require_verified_email && not (is_some user.email_verified_at)) email_not_verified
    issue user at

  unfoldable pub authenticate : String → String → Issuing → Exec Db (TokenPair d.crypto.Text)
  authenticate email password at = do
    user ← Users.get_by_email (normalize_email d.unicode email)
    admit user (d.passwords.verify password (hash_to_check user)) at

  abbrev pub renewed_for : d.crypto.Text → Mint → Option User → Exec Db (TokenPair d.crypto.Text)
  renewed_for refresh_token mint none = raise invalid_credentials
  renewed_for refresh_token mint (some user) = pure (record {
    access_token = create_access_token d.crypto d.lifetimes (d.crypto.str user.id) mint;
    refresh_token = refresh_token;
  })

  -- stored is None or stored.user_id != user_id
  abbrev pub is_foreign : ℕ → Option RefreshToken → Bool
  is_foreign user_id none = true
  is_foreign user_id (some stored) = not (stored.user_id == user_id)

  abbrev pub refresh_for : d.crypto.Text → ℕ → Mint → Option ℕ → Exec Db (TokenPair d.crypto.Text)
  refresh_for refresh_token now mint none = raise invalid_credentials
  refresh_for refresh_token now mint (some user_id) = do
    stored ← RefreshTokens.get_active (d.crypto.digest refresh_token) now
    refuse_if (is_foreign user_id stored) invalid_credentials
    user ← Users.get user_id
    renewed_for refresh_token mint user

  -- `decoded_at` is when the token is decoded, `now` when its row is read.
  unfoldable pub refresh : d.crypto.Text → ℕ → ℕ → Mint → Exec Db (TokenPair d.crypto.Text)
  refresh refresh_token decoded_at now mint = do
    subject ← of_result (decode_refresh_token d.crypto decoded_at refresh_token)
    refresh_for refresh_token now mint (d.crypto.int subject)

  -- `changes` of `_record`: the entry `target`, with the side that the call overrides
  abbrev pub target_change : Option ℕ → Option ℕ → List Change
  target_change old new = record { name = "target"; old = old; new = new } ∷ []

  -- `_record`
  unfoldable pub record_event :
      Option AuditContext → AuditAction → User → List Change → ℕ → Exec Db (Unit {0})
  record_event current action target changes at = do
    create_entry
        (audit_event current impersonation action (some (d.crypto.str target.id)) changes at)
    pure tt

  abbrev pub grant_for : User → User → Mint → ImpersonationGrant d.crypto.Text
  grant_for actor target mint = record {
    access_token =
        create_impersonation_token d.crypto d.lifetimes (d.crypto.str target.id)
          (d.crypto.str actor.id) mint;
    expires_in = seconds d.lifetimes.impersonation;
  }

  unfoldable pub impersonate :
      Option AuditContext → User → User → ℕ → Mint → Exec Db (ImpersonationGrant d.crypto.Text)
  impersonate current actor target at mint = do
    refuse_if (target.id == actor.id) impersonating_self
    refuse_if (not (may_impersonate actor target)) insufficient_permissions
    record_event current impersonate_start target (target_change none (some target.id)) at
    pure (grant_for actor target mint)

  unfoldable pub stop_impersonating : Option AuditContext → User → ℕ → Exec Db (Unit {0})
  stop_impersonating current target at =
      record_event current impersonate_stop target (target_change none none) at

  unfoldable pub logout : d.crypto.Text → ℕ → Exec Db (Unit {0})
  logout refresh_token now = do RefreshTokens.revoke (d.crypto.digest refresh_token) now; pure tt

  unfoldable pub revoke_sessions : User → ℕ → Exec Db ℕ
  revoke_sessions user now = RefreshTokens.revoke_all_for_user user.id now

  -- PasswordChange, as its two passwords; `changed_at` and `revoked_at` are the two times read.
  unfoldable pub change_password : User → String → String → ℕ → ℕ → Exec Db (Unit {0})
  change_password user current_password new_password changed_at revoked_at = do
    refuse_if (not (d.passwords.verify current_password user.hashed_password))
        wrong_current_password
    Users.save (with_password (d.passwords.hash new_password) changed_at user)
    revoke_sessions user revoked_at
    pure tt
