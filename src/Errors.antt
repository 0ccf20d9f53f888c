-- ===== src/Errors.antt =====
-- The exceptions of the program: app/core/error_codes.py, app/core/exceptions.py, and those that the
-- database layer and the parsers raise.
use fastapi_template.Prelude.{◌≡◌, refl, ◌⊎◌, inl, inr, ℕ, String, Option, none, some, List, []}

pub data ErrorCode : Type 0 where
  unexpected : ErrorCode
  validation : ErrorCode
  rate_limited : ErrorCode
  request_failed : ErrorCode
  not_found : ErrorCode
  conflict : ErrorCode
  unauthorized : ErrorCode
  forbidden : ErrorCode
  payload_too_large : ErrorCode
  precondition_required : ErrorCode
  version_conflict : ErrorCode
  idempotency_invalid_key : ErrorCode
  idempotency_body_mismatch : ErrorCode
  idempotency_in_flight : ErrorCode
  auth_invalid_credentials : ErrorCode
  auth_bad_login : ErrorCode
  auth_current_password_incorrect : ErrorCode
  auth_impersonation_self : ErrorCode
  auth_impersonation_revoked : ErrorCode
  auth_impersonation_blocked : ErrorCode
  auth_insufficient_permissions : ErrorCode
  auth_invalid_token : ErrorCode
  auth_email_not_verified : ErrorCode
  item_not_found : ErrorCode
  attachment_not_found : ErrorCode
  attachment_type_refused : ErrorCode
  attachment_too_large : ErrorCode
  user_not_found : ErrorCode
  user_email_taken : ErrorCode
  user_password_incorrect : ErrorCode
  user_self_admin_role : ErrorCode
  user_close_own_account : ErrorCode
  role_not_found : ErrorCode
  role_name_taken : ErrorCode
  role_admin_immutable : ErrorCode
  role_built_in : ErrorCode
  role_has_accounts : ErrorCode
  permission_not_found : ErrorCode
  request_log_not_found : ErrorCode
  audit_log_not_found : ErrorCode

-- The value of the enum, which a client reads.
unfoldable pub value : ErrorCode → String
value unexpected = "error.unexpected"
value validation = "error.validation"
value rate_limited = "error.rateLimited"
value request_failed = "error.requestFailed"
value not_found = "error.notFound"
value conflict = "error.conflict"
value unauthorized = "error.unauthorized"
value forbidden = "error.forbidden"
value payload_too_large = "error.payloadTooLarge"
value precondition_required = "error.preconditionRequired"
value version_conflict = "error.versionConflict"
value idempotency_invalid_key = "idempotency.invalidKey"
value idempotency_body_mismatch = "idempotency.bodyMismatch"
value idempotency_in_flight = "idempotency.inFlight"
value auth_invalid_credentials = "auth.invalidCredentials"
value auth_bad_login = "auth.badLogin"
value auth_current_password_incorrect = "auth.currentPasswordIncorrect"
value auth_impersonation_self = "auth.impersonationSelf"
value auth_impersonation_revoked = "auth.impersonationRevoked"
value auth_impersonation_blocked = "auth.impersonationBlocked"
value auth_insufficient_permissions = "auth.insufficientPermissions"
value auth_invalid_token = "auth.invalidToken"
value auth_email_not_verified = "auth.emailNotVerified"
value item_not_found = "item.notFound"
value attachment_not_found = "attachment.notFound"
value attachment_type_refused = "attachment.typeRefused"
value attachment_too_large = "attachment.tooLarge"
value user_not_found = "user.notFound"
value user_email_taken = "user.emailTaken"
value user_password_incorrect = "user.passwordIncorrect"
value user_self_admin_role = "user.selfAdminRole"
value user_close_own_account = "user.closeOwnAccount"
value role_not_found = "role.notFound"
value role_name_taken = "role.nameTaken"
value role_admin_immutable = "role.adminImmutable"
value role_built_in = "role.builtIn"
value role_has_accounts = "role.hasAccounts"
value permission_not_found = "permission.notFound"
value request_log_not_found = "requestLog.notFound"
value audit_log_not_found = "auditLog.notFound"

-- DomainError and its subclasses.
pub data ErrorClass : Type 0 where
  domain_error not_found_error conflict_error auth_error forbidden_error : ErrorClass
  payload_too_large_error precondition_required_error precondition_failed_error : ErrorClass

abbrev pub status_code : ErrorClass → ℕ
status_code domain_error = 500
status_code not_found_error = 404
status_code conflict_error = 409
status_code auth_error = 401
status_code forbidden_error = 403
status_code payload_too_large_error = 413
status_code precondition_required_error = 428
status_code precondition_failed_error = 412

abbrev pub class_code : ErrorClass → ErrorCode
class_code domain_error = unexpected
class_code not_found_error = not_found
class_code conflict_error = conflict
class_code auth_error = unauthorized
class_code forbidden_error = forbidden
class_code payload_too_large_error = payload_too_large
class_code precondition_required_error = precondition_required
class_code precondition_failed_error = version_conflict

-- `str | int`
pub data ParamValue : Type 0 where
  text : String → ParamValue
  number : ℕ → ParamValue

pub record DomainError : Type 0 where
  pub cls : ErrorClass
  pub detail : String
  pub code : ErrorCode
  pub params : List (String × ParamValue)

abbrev pub code_or : ErrorClass → Option ErrorCode → ErrorCode
code_or cls none = class_code cls
code_or cls (some code) = code

-- DomainError.__init__
abbrev pub domain_error_of :
    ErrorClass → String → Option ErrorCode → List (String × ParamValue) → DomainError
domain_error_of cls detail code params = record {
  cls = cls;
  detail = detail;
  code = code_or cls code;
  params = params;
}

-- What a call may raise: a domain error, an IntegrityError with its SQLSTATE, SQLAlchemy's
-- MultipleResultsFound, Python's ValueError, and any other exception.
pub data Exception : Type 0 where
  domain : DomainError → Exception
  integrity_error : String → Exception
  multiple_results_found : Exception
  value_error : Exception
  other_exception : Exception

pub data Result {ℓ} (A : Type ℓ) : Type ℓ where
  ok : A → Result A
  err : Exception → Result A

abbrev pub not_found_of : String → ErrorCode → Exception
not_found_of detail code = domain (domain_error_of not_found_error detail (some code) [])

abbrev pub conflict_of : String → ErrorCode → Exception
conflict_of detail code = domain (domain_error_of conflict_error detail (some code) [])

abbrev pub forbidden_of : String → ErrorCode → Exception
forbidden_of detail code = domain (domain_error_of forbidden_error detail (some code) [])

abbrev pub auth_of : String → ErrorCode → Exception
auth_of detail code = domain (domain_error_of auth_error detail (some code) [])

-- An error with the code of its class and no parameters
abbrev pub plain_error : ErrorClass → String → Exception
plain_error cls detail = domain (domain_error_of cls detail none [])

pub Result-cases :
    {A : Type 0} (r : Result A) → ((e : Exception) × (r ≡ err e)) ⊎ ((a : A) × (r ≡ ok a))
Result-cases (ok a) = inr (a, refl)
Result-cases (err e) = inl (e, refl)
