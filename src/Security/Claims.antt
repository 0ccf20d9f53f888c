-- ===== src/Security/Claims.antt =====
-- What app/core/security.py reads of the tokens that it made.
use fastapi_template.Prelude.{ℕ, ◌+◌, ◌*◌, ◌≤◌, ◌<◌, String, ◌≡◌, refl, none, some}
use fastapi_template.Errors.{ok, err}
use fastapi_template.Security.{
  second, seconds, Crypto, Lifetimes, access_token_type, refresh_token_type, invalid_credentials,
  Mint, payload_of, create_access_token, create_refresh_token, create_impersonation_token,
  decode_as, decode_access_token, decode_refresh_token,
}

-- A text made then, with that lifetime, is not of a later second, and has not expired.
abbrev pub IsCurrent : Mint → ℕ → ℕ → Type 0
IsCurrent mint lifetime now =
    (seconds mint.at * second ≤ now) × (now < seconds (mint.at + lifetime) * second)

module _ (c : Crypto) (l : Lifetimes) (subject : String) (mint : Mint) (now : ℕ) where
  pub decode-create_refresh :
      IsCurrent mint l.refresh now
      → decode_refresh_token c now (create_refresh_token c l subject mint) ≡ ok subject
  unfolding decode_refresh_token decode_as create_refresh_token
  decode-create_refresh h =
      rw
        (c.decode-encode (payload_of subject refresh_token_type l.refresh none mint) now
          (seconds mint.at) refl h.0 h.1)
        refl

  pub decode-create_access :
      IsCurrent mint l.access now
      → decode_access_token c now (create_access_token c l subject mint)
        ≡ ok (record { subject = subject; impersonator = none; issued_at = seconds mint.at })
  unfolding decode_access_token decode_as create_access_token
  decode-create_access h =
      rw
        (c.decode-encode (payload_of subject access_token_type l.access none mint) now
          (seconds mint.at) refl h.0 h.1)
        refl

  pub decode-create_impersonation :
      (impersonator : String)
      → IsCurrent mint l.impersonation now
      → decode_access_token c now (create_impersonation_token c l subject impersonator mint)
        ≡ ok (record {
          subject = subject;
          impersonator = some impersonator;
          issued_at = seconds mint.at;
        })
  unfolding decode_access_token decode_as create_impersonation_token
  decode-create_impersonation impersonator h =
      rw
        (c.decode-encode
          (payload_of subject access_token_type l.impersonation (some impersonator) mint) now
          (seconds mint.at) refl h.0 h.1)
        refl

  -- Neither kind of token stands for the other.
  pub access_is_no_refresh :
      IsCurrent mint l.access now
      → decode_refresh_token c now (create_access_token c l subject mint) ≡ err invalid_credentials
  unfolding decode_refresh_token decode_as create_access_token
  access_is_no_refresh h =
      rw
        (c.decode-encode (payload_of subject access_token_type l.access none mint) now
          (seconds mint.at) refl h.0 h.1)
        refl

  pub refresh_is_no_access :
      IsCurrent mint l.refresh now
      → decode_access_token c now (create_refresh_token c l subject mint) ≡ err invalid_credentials
  unfolding decode_access_token decode_as create_refresh_token
  refresh_is_no_access h =
      rw
        (c.decode-encode (payload_of subject refresh_token_type l.refresh none mint) now
          (seconds mint.at) refl h.0 h.1)
        refl
