-- ===== src/Services/Support.antt =====
-- app/services/support.py, and what the services take of app/core/security.py.
use fastapi_template.Prelude.{String, ◌≡◌, Bool, true, Option, none, some}
use fastapi_template.Errors.{ErrorCode, not_found_of}
use fastapi_template.Exec.{Exec, pure, raise}

-- pwdlib's hash and verification of one deployment: a parameter of the model. The law is its
-- documented contract, that a password verifies against its own hash.
pub record PasswordHash : Type 0 where
  pub hash : String → String
  pub verify : String → String → Bool
  pub verify-hash : (password : String) → verify password (hash password) ≡ true

abbrev pub or_not_found : {S A : Type 0} → Option A → String → ErrorCode → Exec S A
or_not_found none message code = raise (not_found_of message code)
or_not_found (some a) message code = pure a

-- Python's str.strip and str.lower, which Unicode decides: parameters of the model.
pub record Unicode : Type 0 where
  pub strip : String → String
  pub lower : String → String

-- normalize_email of app/schemas/user.py
abbrev pub normalize_email : Unicode → String → String
normalize_email unicode value = unicode.lower (unicode.strip value)
