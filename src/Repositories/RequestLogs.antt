-- ===== src/Repositories/RequestLogs.antt =====
-- app/repositories/request_log_repo.py, with RequestLogQuery and the outcomes of
-- app/schemas/request_log.py. A query has passed the schema: its limit is from 1 to 100.
pub mod Outcomes
use fastapi_template.Prelude.{
  ℕ, ◌-◌, String, Bool, true, ◌&&◌, Option, none, some, List, str_eq, starts_with, leb,
  if◌then◌else◌, opt_eq,
}
use fastapi_template.Errors.{ok}
use fastapi_template.Models.{RequestLog, insert_row, Db}
use fastapi_template.Exec.{Exec, read}
use fastapi_template.Repositories.Base.{map_result, delete_batch_before}
use fastapi_template.Repositories.Cursor.{CursorCodec, cursor_condition, page_of}

pub data Outcome : Type 0 where
  success warning error : Outcome

pub record RequestLogQuery : Type 0 where
  pub limit : ℕ
  pub cursor : Option String
  pub since : Option ℕ
  pub until : Option ℕ
  pub outcome : Option Outcome
  pub method : Option String
  pub path : Option String
  pub request_id : Option String
  pub user_id : Option ℕ

abbrev pub client_error_status : ℕ
client_error_status = 400

abbrev pub server_error_status : ℕ
server_error_status = 500

abbrev pub max_status : ℕ
max_status = 599

unfoldable pub outcome_for : ℕ → Outcome
outcome_for status =
    if leb server_error_status status
    then error
    else if leb client_error_status status
    then warning
    else success

-- OUTCOME_RANGES
abbrev pub outcome_range : Outcome → ℕ × ℕ
outcome_range success = (0, client_error_status - 1)
outcome_range warning = (client_error_status, server_error_status - 1)
outcome_range error = (server_error_status, max_status)

abbrev pub is_between : ℕ × ℕ → ℕ → Bool
is_between (low, high) status = leb low status && leb status high

-- A condition of `_where`: a field that is None asks for nothing, nor does a text that is empty.
abbrev pub if_given : {A : Type 0} → Option A → (A → Bool) → Bool
if_given none test = true
if_given (some a) test = test a

abbrev pub if_text : Option String → (String → Bool) → Bool
if_text none test = true
if_text (some s) test = if str_eq s "" then true else test s

-- `_where`, without the cursor
unfoldable pub matches : RequestLogQuery → RequestLog → Bool
matches q r =
    if_given q.user_id (λ i. opt_eq r.user_id (some i))
    && if_given q.outcome (λ o. is_between (outcome_range o) r.status_code)
    && if_text q.method (λ m. str_eq r.method m)
    && if_text q.path (λ p. starts_with r.path p)
    && if_text q.request_id (λ i. str_eq r.request_id i)
    && if_given q.since (λ t. leb t r.created_at)
    && if_given q.until (λ t. leb r.created_at t)

abbrev pub log_key : RequestLog → ℕ × ℕ
log_key r = (r.created_at, r.id)

unfoldable pub create : (ℕ → RequestLog) → Exec Db RequestLog
create make db = (
  ok (make db.request_logs.next_id),
  record db { request_logs = insert_row make db.request_logs },
)

unfoldable pub list_page : CursorCodec → RequestLogQuery → Exec Db (List RequestLog)
list_page codec q = read (λ db.
    map_result (λ c. page_of log_key (matches q) c q.limit db.request_logs.rows)
      (cursor_condition codec q.cursor))

unfoldable pub delete_batch_created_before : ℕ → ℕ → Exec Db ℕ
unfolding delete_batch_before
delete_batch_created_before cutoff batch_size db =
    let gone =
      delete_batch_before (λ r. r.id) (λ r. r.created_at) cutoff batch_size db.request_logs in
    (ok gone.0, record db { request_logs = gone.1 })
