-- ===== src/Services/AuditLogService.antt =====
-- app/services/audit_log_service.py.
pub mod Visible
mod Tests
use fastapi_template.Prelude.{
  ℕ, ◌-◌, String, not, ◌&&◌, Option, none, some, List, if◌then◌else◌, opt_eq,
}
use fastapi_template.Errors.{audit_log_not_found, Exception, not_found_of}
use fastapi_template.Models.{AuditLog, Db, Scope, is_all, User}
use fastapi_template.Exec.{Exec, pure, raise, ◌>>=◌, ◌>>◌}
use fastapi_template.Repositories.AuditLogs.{AuditLogQuery, entry_key}
use fastapi_template.Repositories.Cursor.{CursorCodec, cursor_slice}
use fastapi_template.Repositories.AuditLogs

-- `_visible`
unfoldable pub visible : User → Scope → AuditLogQuery → AuditLogQuery
visible viewer scope q = if is_all scope then q else record q { actor_id = some viewer.id }

unfoldable pub list_for :
    CursorCodec → User → Scope → AuditLogQuery → Exec Db (List AuditLog × Option String)
list_for codec viewer scope q = do
  found ← AuditLogs.list_page codec (visible viewer scope q)
  pure (cursor_slice entry_key codec found q.limit)

abbrev pub entry_missing : Exception
entry_missing = not_found_of "Audit entry not found" audit_log_not_found

abbrev pub if_visible : User → Scope → Option AuditLog → Exec Db AuditLog
if_visible viewer scope none = raise entry_missing
if_visible viewer scope (some entry) =
    if not (is_all scope) && not (opt_eq entry.actor_id (some viewer.id))
    then raise entry_missing
    else pure entry

unfoldable pub get_for : User → Scope → ℕ → Exec Db AuditLog
get_for viewer scope entry_id = do entry ← AuditLogs.get entry_id; if_visible viewer scope entry

-- `prune_before`; the cutoff is never before the epoch here.
unfoldable pub prune_batch : ℕ → ℕ → ℕ → Exec Db ℕ
prune_batch now retention batch_size =
    AuditLogs.delete_batch_occurred_before (now - retention) batch_size
