-- ===== src/Routes/Auth.antt =====
-- app/api/v1/routes/auth.py, and send_password_reset of app/api/mail_tasks.py
use fastapi_template.Prelude.{ℕ, String, Option, none, some, [], ◌∷◌}
use fastapi_template.Errors.{Result}
use fastapi_template.Models.{Db, User}
use fastapi_template.Exec.{Exec, pure, ◌>>=◌, ◌>>◌, get_session}
use fastapi_template.Routes.{
  Setting, Caller, user_read_of, Response, no_content, mail_asked, token_pair, impersonation_token,
  permission, not_impersonating, protected, Answer,
}
use fastapi_template.Authorization.{users, impersonate_action}
use fastapi_template.Deps.{Actor, bound}
use fastapi_template.Security.{Mint}
use fastapi_template.Services.SingleUseTokens.{Issuer}
use fastapi_template.Services.AuthService.{Issuing}
use fastapi_template.Services.AuthService
use fastapi_template.Services.UserService
use fastapi_template.Services.EmailVerification
use fastapi_template.Services.PasswordReset

module _ (s : Setting) where
  abbrev pub Text : Type 0
  Text = s.deployment.crypto.Text

  -- `_as_token`, of what sign-in answers
  unfoldable pub login : String → String → Issuing → Exec Db (Response Text)
  login username password at = do
    pair ← AuthService.authenticate s.deployment username password at
    pure (token_pair pair)

  unfoldable pub refresh : Text → ℕ → ℕ → Mint → Exec Db (Response Text)
  refresh refresh_token decoded_at now mint = do
    pair ← AuthService.refresh s.deployment refresh_token decoded_at now mint
    pure (token_pair pair)

  unfoldable pub logout : Text → ℕ → Exec Db (Response Text)
  logout refresh_token now = do AuthService.logout s.deployment refresh_token now; pure no_content

  unfoldable pub reset_password : Issuer → String → String → ℕ → Exec Db (Response Text)
  reset_password issuer token new_password now = do
    PasswordReset.confirm issuer s.deployment.passwords token new_password now
    pure no_content

  unfoldable pub verify_email : String → ℕ → Exec Db (Response Text)
  verify_email token now = do EmailVerification.confirm s.verification token now; pure no_content

  -- The task that forgot_password leaves, in a session of its own; whatever it raises is logged.
  abbrev pub swallowed : {A : Type 0} → Result A × Db → Db
  swallowed (r, db) = db

  unfoldable pub send_password_reset : Issuer → String → ℕ → String → ℕ → Db → Db
  send_password_reset issuer email now token inserted db =
      swallowed (
        get_session (PasswordReset.request issuer s.deployment.unicode email now token inserted) db)

module _ (s : Setting) (caller : Caller s.deployment.crypto.Text) where
  abbrev pub stop_if : Option User → Actor → ℕ → Exec Db (Unit {0})
  stop_if none actor at = pure tt
  stop_if (some impersonator) actor at =
      AuthService.stop_impersonating s.deployment (bound actor caller.context) actor.user at

  unfoldable pub stop_impersonating : ℕ → Answer s caller
  stop_impersonating at =
      protected s caller none [] (λ actor. do stop_if actor.impersonator actor at; pure no_content)

  unfoldable pub impersonate : ℕ → ℕ → Mint → Answer s caller
  impersonate user_id at mint =
      protected s caller none (permission users impersonate_action ∷ []) (λ actor. do
        target ← UserService.get user_id
        grant ←
            AuthService.impersonate s.deployment (bound actor caller.context) actor.user target at
              mint
        pure (impersonation_token grant (user_read_of target) (user_read_of actor.user)))

  unfoldable pub change_password : String → String → ℕ → ℕ → Answer s caller
  change_password current_password new_password changed_at revoked_at =
      protected s caller none (not_impersonating ∷ []) (λ actor. do
        AuthService.change_password s.deployment actor.user current_password new_password changed_at
            revoked_at
        pure no_content)

  unfoldable pub resend_email_verification : ℕ → String → ℕ → Answer s caller
  resend_email_verification now token inserted =
      protected s caller none (not_impersonating ∷ []) (λ actor. do
        mail ← EmailVerification.request s.verification actor.user now token inserted
        pure (mail_asked mail))
