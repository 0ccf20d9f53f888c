-- ===== src/Audit.antt =====
-- app/core/audit/context.py, app/core/audit/events.py, and `create` of
-- app/repositories/audit_log_repo.py. The context variable is an argument.
use fastapi_template.Prelude.{ℕ, String, false, Option, none, some, List}
pub mod Diff
pub mod Collecting
pub mod Listeners
use fastapi_template.Errors.{ok}
use fastapi_template.Models.{AuditAction, Change, AuditLog, insert_row, Db}
use fastapi_template.Exec.{Exec}

pub record AuditContext : Type 0 where
  pub request_id : Option String
  pub method : Option String
  pub path : Option String
  pub client_ip : Option String
  pub actor_id : Option ℕ
  pub impersonator_id : Option ℕ
  pub source : String

abbrev pub request_source : String
request_source = "request"

abbrev pub system_source : String
system_source = "system"

abbrev pub impersonation : String
impersonation = "impersonation"

abbrev pub system_context : AuditContext
system_context = record {
  request_id = none;
  method = none;
  path = none;
  client_ip = none;
  actor_id = none;
  impersonator_id = none;
  source = system_source;
}

abbrev pub bind_actor : Option ℕ → Option ℕ → Option AuditContext → Option AuditContext
bind_actor actor_id impersonator_id none = none
bind_actor actor_id impersonator_id (some context) =
    some (record context { actor_id = actor_id; impersonator_id = impersonator_id })

abbrev pub or_system : Option AuditContext → AuditContext
or_system none = system_context
or_system (some context) = context

-- `audit_event`; the row's id and the moment of its transaction come with the INSERT.
unfoldable pub audit_event :
    Option AuditContext → String → AuditAction → Option String → List Change → ℕ → ℕ → AuditLog
audit_event current table_name action row_pk changes occurred_at id =
    let context = or_system current in
    record {
      id = id;
      occurred_at = occurred_at;
      request_id = context.request_id;
      actor_id = context.actor_id;
      impersonator_id = context.impersonator_id;
      source = context.source;
      method = context.method;
      path = context.path;
      client_ip = context.client_ip;
      table_name = table_name;
      action = action;
      row_pk = row_pk;
      changes = changes;
      truncated = false;
    }

unfoldable pub create_entry : (ℕ → AuditLog) → Exec Db AuditLog
create_entry make db =
    (ok (make db.audit_logs.next_id), record db { audit_logs = insert_row make db.audit_logs })
