-- ===== src/Models/Logs.antt =====
-- app/models/request_log.py, app/models/audit_log.py, AuditAction of app/core/audit/policy.py.
use fastapi_template.Prelude.{ℕ, String, Option, Bool, List}

-- `duration_ms` is a float in the source and is kept as a number of microseconds.
pub record RequestLog : Type 0 where
  pub id : ℕ
  pub created_at : ℕ
  pub request_id : String
  pub method : String
  pub path : String
  pub status_code : ℕ
  pub duration_us : ℕ
  pub client_ip : Option String
  pub user_id : Option ℕ

pub data AuditAction : Type 0 where
  insert update delete soft_delete restore link unlink : AuditAction
  impersonate_start impersonate_stop : AuditAction

-- One entry of `changes`: a column or the subject of an event, and what it was and is.
pub record Change : Type 0 where
  pub name : String
  pub old : Option ℕ
  pub new : Option ℕ

pub record AuditLog : Type 0 where
  pub id : ℕ
  pub occurred_at : ℕ
  pub request_id : Option String
  pub actor_id : Option ℕ
  pub impersonator_id : Option ℕ
  pub source : String
  pub method : Option String
  pub path : Option String
  pub client_ip : Option String
  pub table_name : String
  pub action : AuditAction
  pub row_pk : Option String
  pub changes : List Change
  pub truncated : Bool
