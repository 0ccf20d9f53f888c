-- ===== src/Routes/Logs.antt =====
-- app/api/v1/routes/requests.py and app/api/v1/routes/audit.py
use fastapi_template.Prelude.{ℕ, String, some}
use fastapi_template.Exec.{pure, ◌>>=◌}
use fastapi_template.Routes.{
  Setting, Caller, request_read, request_page, audit_read, audit_page, protected_scoped, Answer,
}
use fastapi_template.Authorization.{request_log, audit_log, read_action}
use fastapi_template.Features.{request_log_feature, audit_log_feature}
use fastapi_template.Repositories.RequestLogs.{RequestLogQuery}
use fastapi_template.Repositories.AuditLogs.{AuditLogQuery}
use fastapi_template.Services.RequestLogService
use fastapi_template.Services.AuditLogService

module _ (s : Setting) (caller : Caller s.deployment.crypto.Text) where
  unfoldable pub list_requests : RequestLogQuery → Answer s caller
  list_requests query =
      protected_scoped s caller (some request_log_feature) request_log read_action (λ viewer scope.
        do
          found ← RequestLogService.list_for s.codec viewer scope query
          pure (request_page found.0 query.limit found.1))

  unfoldable pub get_request : String → Answer s caller
  get_request request_id =
      protected_scoped s caller (some request_log_feature) request_log read_action (λ viewer scope.
        do
          entry ← RequestLogService.get_for s.codec viewer scope request_id
          pure (request_read entry))

  unfoldable pub list_audit_entries : AuditLogQuery → Answer s caller
  list_audit_entries query =
      protected_scoped s caller (some audit_log_feature) audit_log read_action (λ viewer scope. do
        found ← AuditLogService.list_for s.codec viewer scope query
        pure (audit_page found.0 query.limit found.1))

  unfoldable pub get_audit_entry : ℕ → Answer s caller
  get_audit_entry entry_id =
      protected_scoped s caller (some audit_log_feature) audit_log read_action (λ viewer scope. do
        entry ← AuditLogService.get_for viewer scope entry_id
        pure (audit_read entry))
