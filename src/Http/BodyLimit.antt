-- ===== src/Http/BodyLimit.antt =====
-- app/core/http/body_limit.py. A body arrives as its chunks, and `int` is Python's.
pub mod Limits
use fastapi_template.Prelude.{
  ℕ, ◌+◌, String, Bool, false, not, Option, none, some, List, [], ◌∷◌, ◌++◌, str_eq, ltb,
  if◌then◌else◌, length, Bytes,
}
use fastapi_template.Errors.{
  payload_too_large, payload_too_large_error, domain_error_of, Exception, domain, value_error,
  Result, ok, err,
}
use fastapi_template.Http.Errors.{sentence, Headers, Correlation, error_response}
use fastapi_template.Http.Asgi.{Answer, sends, Request, App, Rendering}

-- What int reads; `negsuc n` is -(n + 1).
pub data ℤ : Type 0 where
  pos : ℕ → ℤ
  negsuc : ℕ → ℤ

abbrev pub content_length_header : String
content_length_header = "content-length"

abbrev pub too_large : Exception
too_large = domain (domain_error_of payload_too_large_error "Request body too large" none [])

-- `int(value)` raises ValueError.
abbrev pub parsed : Option ℤ → Result (Option ℤ)
parsed none = err value_error
parsed (some n) = ok (some n)

-- `_declared_length`: ASGI names headers in lower case.
unfoldable pub declared_length : (String → Option ℤ) → Headers → Result (Option ℤ)
declared_length int [] = ok none
declared_length int ((n, v) ∷ rest) =
    if str_eq n content_length_header then parsed (int v) else declared_length int rest

abbrev pub appended : Bytes → Result Bytes → Result Bytes
appended chunk (ok rest) = ok (chunk ++ rest)
appended chunk (err e) = err e

-- Reading to the end through `_bounded`, after `received` bytes.
unfoldable pub bounded : ℕ → ℕ → List Bytes → Result Bytes
bounded max_bytes received [] = ok []
bounded max_bytes received (chunk ∷ chunks) =
    let rest = bounded max_bytes (received + length chunk) chunks in
    if ltb max_bytes (received + length chunk) then err too_large else appended chunk rest

-- declared is not None and declared > self._max_bytes
abbrev pub is_over : ℕ → Option ℤ → Bool
is_over max_bytes none = false
is_over max_bytes (some (pos n)) = ltb max_bytes n
is_over max_bytes (some (negsuc n)) = false

abbrev pub joined : List Bytes → Bytes
joined [] = []
joined (chunk ∷ chunks) = chunk ++ joined chunks

-- `_refuse`
abbrev pub refuse : Rendering → Correlation → Answer
refuse rendering c = sends (
    rendering.respond_json (
      error_response c 413 (sentence "Request body too large") "Request body too large"
        payload_too_large [] []))

module _ {S : Type 0} (int : String → Option ℤ) (max_bytes : ℕ) (rendering : Rendering)
    (c : Correlation) (app : App S) where
  abbrev pub admit : Request → List Bytes → Result (Option ℤ) → S → Answer × S
  admit req chunks (err e) s = (record { sent = []; outcome = err e }, s)
  admit req chunks (ok declared) s =
      if is_over max_bytes declared
      then (refuse rendering c, s)
      else app (record req { body = bounded max_bytes 0 chunks }) s

  -- BodySizeLimitMiddleware.__call__ of a request whose body comes in `chunks`
  unfoldable pub body_limit : List Bytes → Request → S → Answer × S
  body_limit chunks req s =
      if not req.is_http
      then app (record req { body = ok (joined chunks) }) s
      else admit req chunks (declared_length int req.headers) s
