-- ===== src/Services/PasswordReset.antt =====
-- app/services/password_reset_service.py. The mailer's message is an effect of the call: it is the
-- value that `request` returns.
pub mod Laws
mod Tests
use fastapi_template.Prelude.{ℕ, String, Option, none, some}
use fastapi_template.Errors.{auth_invalid_token, Exception, auth_of}
use fastapi_template.Models.{SingleUseToken, Db, User}
use fastapi_template.Exec.{Exec, pure, raise, ◌>>=◌, ◌>>◌}
use fastapi_template.Services.SingleUseTokens.{Issuer, issue, redeem}
use fastapi_template.Services.Support.{Unicode, normalize_email, PasswordHash}
use fastapi_template.Repositories.Users
use fastapi_template.Repositories.SingleUseTokens
use fastapi_template.Repositories.RefreshTokens

-- A message that the account mailer is asked to send.
pub record Mail : Type 0 where
  pub user : User
  pub token : String
  pub expires_at : ℕ

abbrev pub mail_of : User → Option (String × ℕ) → Option Mail
mail_of user none = none
mail_of user (some (token, expires_at)) =
    some (record { user = user; token = token; expires_at = expires_at })

abbrev pub request_for : Issuer → ℕ → String → ℕ → Option User → Exec Db (Option Mail)
request_for i now token inserted none = pure none
request_for i now token inserted (some user) = do
  issued ← issue i user.id now token inserted
  pure (mail_of user issued)

unfoldable pub request : Issuer → Unicode → String → ℕ → String → ℕ → Exec Db (Option Mail)
request i unicode email now token inserted = do
  user ← Users.get_by_email (normalize_email unicode email)
  request_for i now token inserted user

abbrev pub invalid_token : Exception
invalid_token = auth_of "This reset link is no longer valid" auth_invalid_token

abbrev pub with_password : String → ℕ → User → User
with_password hashed now user = record user {
  row = record user.row { hashed_password = hashed; password_changed_at = some now };
}

abbrev pub confirm_found : Issuer → String → ℕ → Option (SingleUseToken × User) → Exec Db (Unit {0})
confirm_found i hashed now none = raise invalid_token
confirm_found i hashed now (some (stored, user)) = do
  Users.save (with_password hashed now user)
  SingleUseTokens.mark_used stored now
  SingleUseTokens.revoke_all_for user.id i.purpose now
  RefreshTokens.revoke_all_for_user user.id now
  pure tt

unfoldable pub confirm : Issuer → PasswordHash → String → String → ℕ → Exec Db (Unit {0})
confirm i passwords token new_password now = do
  found ← redeem i token now
  confirm_found i (passwords.hash new_password) now found
