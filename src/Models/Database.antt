-- ===== src/Models/Database.antt =====
-- The tables, each with the sequence of its primary key.
use fastapi_template.Prelude.{ℕ, ◌+◌, List, [], ◌∷◌, ◌++◌}
use fastapi_template.Models.Accounts.{Role, Permission, UserRow}
use fastapi_template.Models.Content.{Item, Attachment, UserPreferences}
use fastapi_template.Models.Tokens.{RefreshToken, SingleUseToken, IdempotencyKey}
use fastapi_template.Models.Logs.{RequestLog, AuditLog}

pub record Table (R : Type 0) : Type 0 where
  pub rows : List R
  pub next_id : ℕ

abbrev pub empty_table : {R : Type 0} → Table R
empty_table = record { rows = []; next_id = 1 }

-- INSERT: the row takes the next value of the sequence.
abbrev pub insert_row : {R : Type 0} → (ℕ → R) → Table R → Table R
insert_row make t = record { rows = t.rows ++ make t.next_id ∷ []; next_id = t.next_id + 1 }

pub record Db : Type 0 where
  pub users : Table UserRow
  pub roles : Table Role
  pub permissions : Table Permission
  pub items : Table Item
  pub attachments : Table Attachment
  pub preferences : Table UserPreferences
  pub refresh_tokens : Table RefreshToken
  pub single_use_tokens : Table SingleUseToken
  pub idempotency_keys : Table IdempotencyKey
  pub request_logs : Table RequestLog
  pub audit_logs : Table AuditLog

abbrev pub empty_db : Db
empty_db = record {
  users = empty_table;
  roles = empty_table;
  permissions = empty_table;
  items = empty_table;
  attachments = empty_table;
  preferences = empty_table;
  refresh_tokens = empty_table;
  single_use_tokens = empty_table;
  idempotency_keys = empty_table;
  request_logs = empty_table;
  audit_logs = empty_table;
}
