-- ===== src/Models/Tokens.antt =====
-- app/models/refresh_token.py, app/models/single_use_token.py, app/models/idempotency_key.py.
use fastapi_template.Prelude.{ℕ, String, Option, Bool, true, false}

-- A `datetime` that may lack its time zone; a naive one is read as UTC.
pub record Stamp : Type 0 where
  pub at : ℕ
  pub aware : Bool

pub record RefreshToken : Type 0 where
  pub id : ℕ
  pub token_hash : String
  pub user_id : ℕ
  pub expires_at : ℕ
  pub revoked_at : Option ℕ

pub data TokenPurpose : Type 0 where
  email_verification password_reset : TokenPurpose

abbrev pub purpose_eq : TokenPurpose → TokenPurpose → Bool
purpose_eq email_verification email_verification = true
purpose_eq password_reset password_reset = true
purpose_eq _ _ = false

pub record SingleUseToken : Type 0 where
  pub id : ℕ
  pub created_at : Option Stamp
  pub token_hash : String
  pub user_id : ℕ
  pub purpose : TokenPurpose
  pub expires_at : ℕ
  pub used_at : Option ℕ

pub record IdempotencyKey : Type 0 where
  pub id : ℕ
  pub created_at : Option Stamp
  pub key : String
  pub user_id : ℕ
  pub method : String
  pub path : String
  pub request_hash : String
  pub status_code : Option ℕ
  pub response_body : Option String
  pub content_type : Option String
  pub completed_at : Option ℕ
