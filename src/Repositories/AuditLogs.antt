-- ===== src/Repositories/AuditLogs.antt =====
-- app/repositories/audit_log_repo.py, with AuditLogQuery of app/schemas/audit_log.py. A query has
-- passed the schema: its limit is from 1 to 100, and its action is one of AuditAction.
use fastapi_template.Prelude.{
  ℕ, String, Bool, ◌&&◌, Option, some, List, str_eq, leb, ◌==◌, opt_str_eq, opt_eq, select, first,
}
use fastapi_template.Errors.{ok}
use fastapi_template.Models.{
  AuditAction, insert, soft_delete, restore, link, unlink, impersonate_start, impersonate_stop,
  AuditLog, Db,
}
use fastapi_template.Exec.{Exec, read}
use fastapi_template.Repositories.Base.{map_result, delete_batch_before}
use fastapi_template.Repositories.Cursor.{CursorCodec, cursor_condition, page_of}
use fastapi_template.Repositories.RequestLogs.{if_given, if_text}

pub record AuditLogQuery : Type 0 where
  pub limit : ℕ
  pub cursor : Option String
  pub since : Option ℕ
  pub until : Option ℕ
  pub actor_id : Option ℕ
  pub impersonator_id : Option ℕ
  pub table_name : Option String
  pub row_pk : Option String
  pub action : Option AuditAction
  pub request_id : Option String

abbrev pub action_value : AuditAction → String
action_value insert = "insert"
action_value AuditAction.update = "update"
action_value AuditAction.delete = "delete"
action_value soft_delete = "soft_delete"
action_value restore = "restore"
action_value link = "link"
action_value unlink = "unlink"
action_value impersonate_start = "impersonate_start"
action_value impersonate_stop = "impersonate_stop"

-- `_where`, without the cursor
unfoldable pub matches : AuditLogQuery → AuditLog → Bool
matches q r =
    if_given q.actor_id (λ i. opt_eq r.actor_id (some i))
    && if_given q.impersonator_id (λ i. opt_eq r.impersonator_id (some i))
    && if_text q.table_name (λ t. str_eq r.table_name t)
    && if_text q.row_pk (λ k. opt_str_eq r.row_pk (some k))
    && if_given q.action (λ a. str_eq (action_value r.action) (action_value a))
    && if_text q.request_id (λ i. opt_str_eq r.request_id (some i))
    && if_given q.since (λ t. leb t r.occurred_at)
    && if_given q.until (λ t. leb r.occurred_at t)

abbrev pub entry_key : AuditLog → ℕ × ℕ
entry_key r = (r.occurred_at, r.id)

unfoldable pub list_page : CursorCodec → AuditLogQuery → Exec Db (List AuditLog)
list_page codec q = read (λ db.
    map_result (λ c. page_of entry_key (matches q) c q.limit db.audit_logs.rows)
      (cursor_condition codec q.cursor))

-- A look-up by primary key.
unfoldable pub get : ℕ → Exec Db (Option AuditLog)
get entry_id = read (λ db. ok (first (select (λ r. r.id == entry_id) db.audit_logs.rows)))

unfoldable pub delete_batch_occurred_before : ℕ → ℕ → Exec Db ℕ
unfolding delete_batch_before
delete_batch_occurred_before cutoff batch_size db =
    let gone =
      delete_batch_before (λ r. r.id) (λ r. r.occurred_at) cutoff batch_size db.audit_logs in
    (ok gone.0, record db { audit_logs = gone.1 })
