-- ===== src/Services/AuditLogService/Tests.antt =====
-- Runs of app/services/audit_log_service.py.
use fastapi_template.Prelude.{◌≡◌, refl, none, some, [], ◌∷◌}
use fastapi_template.Models.{impersonate_start, AuditLog, Db, own}
use fastapi_template.Services.AuditLogService.Visible.{get_for-hides}
use fastapi_template.Services.UserService.Tests.{bob, staffed}
use fastapi_template.Audit.{impersonation, audit_event}
use fastapi_template.Repositories.Users
use fastapi_template.Services.AuditLogService

abbrev recorded : AuditLog
recorded = audit_event none impersonation impersonate_start (some "2") [] 5 1

abbrev trailed : Db
trailed = record staffed { audit_logs = record { rows = recorded ∷ []; next_id = 2 } }

get_for-hides_example :
    (AuditLogService.get_for (Users.load staffed bob) own 1 trailed).0
    ≡ (AuditLogService.get_for (Users.load staffed bob) own 1 staffed).0
unfolding audit_event
get_for-hides_example = get_for-hides (Users.load staffed bob) 1 trailed staffed refl refl
