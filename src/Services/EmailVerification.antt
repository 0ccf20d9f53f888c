-- ===== src/Services/EmailVerification.antt =====
-- app/services/email_verification_service.py. The mailer's message is the value that `request`
-- returns.
use fastapi_template.Prelude.{ℕ, String, Option, none, some, if◌then◌else◌, is_some}
use fastapi_template.Errors.{auth_invalid_token, Exception, auth_of}
use fastapi_template.Models.{SingleUseToken, Db, User}
use fastapi_template.Exec.{Exec, pure, raise, ◌>>=◌, ◌>>◌}
use fastapi_template.Services.SingleUseTokens.{Issuer, issue, redeem}
use fastapi_template.Services.PasswordReset.{Mail, mail_of}
use fastapi_template.Repositories.Users
use fastapi_template.Repositories.SingleUseTokens

unfoldable pub request : Issuer → User → ℕ → String → ℕ → Exec Db (Option Mail)
request i user now token inserted =
    if is_some user.email_verified_at
    then pure none
    else (do issued ← issue i user.id now token inserted; pure (mail_of user issued))

abbrev pub invalid_token : Exception
invalid_token = auth_of "This confirmation link is no longer valid" auth_invalid_token

abbrev pub verified : ℕ → User → User
verified now user = record user { row = record user.row { email_verified_at = some now } }

abbrev pub confirm_found : ℕ → Option (SingleUseToken × User) → Exec Db User
confirm_found now none = raise invalid_token
confirm_found now (some (stored, user)) = do
  SingleUseTokens.mark_used stored now
  (if is_some user.email_verified_at then pure user else Users.save (verified now user))

unfoldable pub confirm : Issuer → String → ℕ → Exec Db User
confirm i token now = do found ← redeem i token now; confirm_found now found
