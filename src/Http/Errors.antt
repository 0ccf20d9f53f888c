-- ===== src/Http/Errors.antt =====
-- app/core/http/errors.py: the one shape of every failing response, and the handlers that build it.
-- Integers in a validation context are natural numbers here.
pub mod Shape
-- What pydantic puts in the context of a validation error.
use fastapi_template.Prelude.{
  ℕ, String, Bool, Option, none, some, List, [], ◌∷◌, map, str_eq, ◌==◌, if◌then◌else◌,
}
use fastapi_template.Errors.{
  ErrorCode, unexpected, validation, rate_limited, request_failed, not_found, conflict,
  unauthorized, forbidden, payload_too_large, status_code, ParamValue, DomainError,
}

pub data Context : Type 0 where
  text : String → Context
  number : ℕ → Context
  flag : Bool → Context
  object : Context

-- One entry of RequestValidationError.errors(); `input` is the value that was refused.
pub record RawError : Type 0 where
  pub kind : String
  pub loc : List String
  pub msg : String
  pub input : String
  pub ctx : Option (List (String × Context))

-- app/schemas/error.py: ValidationDetail
pub record ValidationDetail : Type 0 where
  pub kind : String
  pub loc : List String
  pub msg : String
  pub ctx : List (String × ParamValue)

pub data Detail : Type 0 where
  sentence : String → Detail
  entries : List ValidationDetail → Detail

abbrev pub Headers : Type 0
Headers = List (String × String)

pub record ErrorResponse : Type 0 where
  pub status : ℕ
  pub detail : Detail
  pub message : String
  pub code : ErrorCode
  pub params : List (String × ParamValue)
  pub request_id : Option String
  pub headers : Headers

-- The request id on the request's state, if it is a text there, and in the context variable.
pub record Correlation : Type 0 where
  pub from_state : Option String
  pub from_context : Option String

-- `_correlation_id`
abbrev pub correlation_id : Correlation → Option String
correlation_id c = elim c.from_state [ none ↦ c.from_context | some id ↦ some id ]

abbrev pub request_id_header : String
request_id_header = "X-Request-ID"

-- sent[name] = value
abbrev pub set_header : String → String → Headers → Headers
set_header name v [] = (name, v) ∷ []
set_header name v ((n, w) ∷ rest) =
    if str_eq n name then (n, v) ∷ rest else (n, w) ∷ set_header name v rest

abbrev pub header : String → Headers → Option String
header name [] = none
header name ((n, w) ∷ rest) = if str_eq n name then some w else header name rest

abbrev pub with_id : Option String → Headers → Headers
with_id none headers = headers
with_id (some id) headers =
    if str_eq id "" then headers else set_header request_id_header id headers

unfoldable pub error_response :
    Correlation
    → ℕ
    → Detail
    → String
    → ErrorCode
    → List (String × ParamValue)
    → Headers
    → ErrorResponse
error_response c status detail message code params headers = record {
  status = status;
  detail = detail;
  message = message;
  code = code;
  params = params;
  request_id = correlation_id c;
  headers = with_id (correlation_id c) headers;
}

-- `_scalar_context`
abbrev pub scalars : List (String × Context) → List (String × ParamValue)
scalars [] = []
scalars ((k, text s) ∷ rest) = (k, ParamValue.text s) ∷ scalars rest
scalars ((k, number n) ∷ rest) = (k, ParamValue.number n) ∷ scalars rest
scalars ((k, flag b) ∷ rest) = scalars rest
scalars ((k, object) ∷ rest) = scalars rest

unfoldable pub scalar_context : Option (List (String × Context)) → List (String × ParamValue)
scalar_context none = []
scalar_context (some ctx) = scalars ctx

abbrev pub detail_of : RawError → ValidationDetail
detail_of e = record { kind = e.kind; loc = e.loc; msg = e.msg; ctx = scalar_context e.ctx }

-- STATUS_CODES, and its default
unfoldable pub code_for_status : ℕ → ErrorCode
code_for_status status =
    if status == 401
    then unauthorized
    else if status == 403
    then forbidden
    else if status == 404
    then not_found
    else if status == 409
    then conflict
    else if status == 413
    then payload_too_large
    else if status == 429
    then rate_limited
    else request_failed

-- What a route or the framework raises. An HTTPException has its own detail, if that is a text, and
-- the domain error that it was raised from, if there is one.
pub data Failure : Type 0 where
  domain_failure : DomainError → Failure
  validation_failure : List RawError → Failure
  http_failure : ℕ → Option String → Headers → Option DomainError → Failure
  unexpected_failure : Failure

abbrev pub or_default : Option String → String
or_default none = "Request failed"
or_default (some detail) = detail

abbrev pub handle_domain_error : Correlation → DomainError → ErrorResponse
handle_domain_error c e =
    error_response c (status_code e.cls) (sentence e.detail) e.detail e.code e.params []

abbrev pub handle_http_error :
    Correlation → ℕ → String → Headers → Option DomainError → ErrorResponse
handle_http_error c status detail headers (some cause) = handle_domain_error c cause
handle_http_error c status detail headers none =
    error_response c status (sentence detail) detail (code_for_status status) [] headers

-- The handlers of `register_exception_handlers`.
unfoldable pub handle : Correlation → Failure → ErrorResponse
unfolding error_response
handle c (domain_failure e) = handle_domain_error c e
handle c (validation_failure errors) =
    error_response c 422 (entries (map detail_of errors)) "The request could not be validated."
      validation [] []
handle c (http_failure status detail headers cause) =
    handle_http_error c status (or_default detail) headers cause
handle c unexpected_failure =
    error_response c 500 (sentence "Internal server error") "Something went wrong on our side."
      unexpected [] []
