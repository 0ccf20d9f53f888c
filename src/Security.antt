-- ===== src/Security.antt =====
-- app/core/security.py, and `str` and `int` of an account's id. The texts of PyJWT are a type of their
-- own, of which the model knows only what encoding and decoding promise.
pub mod Claims
use fastapi_template.Prelude.{
  ℕ, ◌+◌, ◌*◌, ◌/◌, ◌≤◌, ◌<◌, String, ◌≡◌, not, Option, none, some, if◌then◌else◌, is_some,
  opt_str_eq,
}
use fastapi_template.Errors.{auth_invalid_credentials, Exception, Result, ok, err, auth_of}

-- The value of the claim `act`, where it is there.
pub data Act : Type 0 where
  no_dict : Act
  dict : Option String → Act

-- A payload; PyJWT writes times as whole seconds. `issued_at` is `none` where `iat` is not an int.
pub record Payload : Type 0 where
  pub subject : Option String
  pub kind : Option String
  pub jti : String
  pub issued_at : Option ℕ
  pub expires_at : ℕ
  pub act : Option Act

abbrev pub second : ℕ
second = 1000000

-- The whole seconds of a moment.
abbrev pub seconds : ℕ → ℕ
seconds t = t / second

-- What the deployment uses of PyJWT with its key, of SHA-256, and of Python's `str` and `int`; times
-- are in microseconds. A text that encodes a payload decodes to it until it expires.
pub record Crypto : Type 1 where
  pub Text : Type 0
  pub encode : Payload → Text
  pub decode : ℕ → Text → Option Payload
  pub digest : Text → String
  pub str : ℕ → String
  pub int : String → Option ℕ
  pub decode-encode :
      (p : Payload) (now iat : ℕ)
      → p.issued_at ≡ some iat
      → iat * second ≤ now
      → now < p.expires_at * second
      → decode now (encode p) ≡ some p
  pub int-str : (n : ℕ) → int (str n) ≡ some n

-- The three lifetimes of app/core/config.py, in microseconds.
pub record Lifetimes : Type 0 where
  pub access : ℕ
  pub refresh : ℕ
  pub impersonation : ℕ

abbrev pub access_token_type : String
access_token_type = "access"

abbrev pub refresh_token_type : String
refresh_token_type = "refresh"

abbrev pub invalid_credentials : Exception
invalid_credentials = auth_of "Invalid authentication credentials" auth_invalid_credentials

pub record AccessClaims : Type 0 where
  pub subject : String
  pub impersonator : Option String
  pub issued_at : ℕ

-- The time at which a token is made, and its random id.
pub record Mint : Type 0 where
  pub at : ℕ
  pub jti : String

abbrev pub act_of : Option String → Option Act
act_of none = none
act_of (some impersonator) = some (dict (some impersonator))

abbrev pub payload_of : String → String → ℕ → Option String → Mint → Payload
payload_of subject kind lifetime impersonator mint = record {
  subject = some subject;
  kind = some kind;
  jti = mint.jti;
  issued_at = some (seconds mint.at);
  expires_at = seconds (mint.at + lifetime);
  act = act_of impersonator;
}

abbrev pub checked : String → Option Payload → Result Payload
checked kind none = err invalid_credentials
checked kind (some p) =
    if not (opt_str_eq p.kind (some kind))
    then err invalid_credentials
    else if not (is_some p.subject)
    then err invalid_credentials
    else ok p

abbrev pub text_or_empty : Option String → String
text_or_empty none = ""
text_or_empty (some s) = s

-- `_impersonator_of`
abbrev pub impersonator_of : Option Act → Result (Option String)
impersonator_of none = ok none
impersonator_of (some no_dict) = err invalid_credentials
impersonator_of (some (dict none)) = err invalid_credentials
impersonator_of (some (dict (some s))) = ok (some s)

-- `_issued_at`
abbrev pub issued_at_of : Option ℕ → Result ℕ
issued_at_of none = err invalid_credentials
issued_at_of (some issued) = ok issued

abbrev pub then_do : {A B : Type 0} → Result A → (A → Result B) → Result B
then_do (ok a) f = f a
then_do (err e) f = err e

abbrev pub claims_of : Payload → Result AccessClaims
claims_of p = then_do (impersonator_of p.act) (λ impersonator.
    then_do (issued_at_of p.issued_at) (λ issued. ok (record {
      subject = text_or_empty p.subject;
      impersonator = impersonator;
      issued_at = issued;
    })))

abbrev pub subject_of : Payload → Result String
subject_of p = if is_some p.act then err invalid_credentials else ok (text_or_empty p.subject)

module _ (c : Crypto) where
  unfoldable pub create_access_token : Lifetimes → String → Mint → c.Text
  create_access_token l subject mint =
      c.encode (payload_of subject access_token_type l.access none mint)

  unfoldable pub create_refresh_token : Lifetimes → String → Mint → c.Text
  create_refresh_token l subject mint =
      c.encode (payload_of subject refresh_token_type l.refresh none mint)

  unfoldable pub create_impersonation_token : Lifetimes → String → String → Mint → c.Text
  create_impersonation_token l subject impersonator mint =
      c.encode (payload_of subject access_token_type l.impersonation (some impersonator) mint)

  -- `_decode`
  unfoldable pub decode_as : String → ℕ → c.Text → Result Payload
  decode_as kind now token = checked kind (c.decode now token)

  unfoldable pub decode_access_token : ℕ → c.Text → Result AccessClaims
  unfolding decode_as
  decode_access_token now token = then_do (decode_as access_token_type now token) claims_of

  unfoldable pub decode_refresh_token : ℕ → c.Text → Result String
  unfolding decode_as
  decode_refresh_token now token = then_do (decode_as refresh_token_type now token) subject_of
