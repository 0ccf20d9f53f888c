-- ===== src/Services/RequestLogService.antt =====
-- app/services/request_log_service.py, and scoped_to_owner of app/services/support.py.
pub mod Visible
pub mod Tests
use fastapi_template.Prelude.{ℕ, ◌-◌, String, Option, none, some, List, if◌then◌else◌, first}
use fastapi_template.Errors.{request_log_not_found, status_code}
use fastapi_template.Models.{RequestLog, Db, Scope, is_all, User}
use fastapi_template.Exec.{Exec, pure, ◌>>=◌, ◌>>◌}
use fastapi_template.Repositories.RequestLogs.{RequestLogQuery, log_key}
use fastapi_template.Repositories.Cursor.{CursorCodec, cursor_slice}
use fastapi_template.Services.Support.{or_not_found}
use fastapi_template.Repositories.RequestLogs

-- RequestRecord of app/schemas/request_log.py, its duration in microseconds
pub record RequestRecord : Type 0 where
  pub request_id : String
  pub method : String
  pub path : String
  pub status_code : ℕ
  pub duration_us : ℕ
  pub client_ip : Option String
  pub user_id : Option ℕ

-- `_visible`
unfoldable pub visible : User → Scope → RequestLogQuery → RequestLogQuery
visible viewer scope q = if is_all scope then q else record q { user_id = some viewer.id }

abbrev pub row_of : RequestRecord → ℕ → ℕ → RequestLog
row_of r created_at id = record {
  id = id;
  created_at = created_at;
  request_id = r.request_id;
  method = r.method;
  path = r.path;
  status_code = r.status_code;
  duration_us = r.duration_us;
  client_ip = r.client_ip;
  user_id = r.user_id;
}

-- `record`, which is a keyword here; `created_at` is the time of the transaction.
unfoldable pub record_request : RequestRecord → ℕ → Exec Db RequestLog
record_request r created_at = RequestLogs.create (row_of r created_at)

unfoldable pub list_for :
    CursorCodec → User → Scope → RequestLogQuery → Exec Db (List RequestLog × Option String)
list_for codec viewer scope q = do
  found ← RequestLogs.list_page codec (visible viewer scope q)
  pure (cursor_slice log_key codec found q.limit)

abbrev pub by_request_id : String → RequestLogQuery
by_request_id request_id = record {
  limit = 1;
  cursor = none;
  since = none;
  until = none;
  outcome = none;
  method = none;
  path = none;
  request_id = some request_id;
  user_id = none;
}

unfoldable pub get_for : CursorCodec → User → Scope → String → Exec Db RequestLog
get_for codec viewer scope request_id = do
  found ← RequestLogs.list_page codec (visible viewer scope (by_request_id request_id))
  or_not_found (first found) "Request not found" request_log_not_found

-- `prune_before`; the cutoff is never before the epoch here.
unfoldable pub prune_batch : ℕ → ℕ → ℕ → Exec Db ℕ
prune_batch now retention batch_size =
    RequestLogs.delete_batch_created_before (now - retention) batch_size
