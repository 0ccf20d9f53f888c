-- ===== src/Audit/Listeners/Tests.antt =====
-- Runs of app/core/audit/listeners.py.
use fastapi_template.Prelude.{ℕ, zero, suc, ◌≡◌, refl, true, false, none, some, List, [], ◌∷◌, All}
use fastapi_template.Errors.{other_exception, err}
use fastapi_template.Models.{AuditAction}
use fastapi_template.Audit.{system_source}
use fastapi_template.Audit.Diff.{
  null, number_value, moment_value, text_value, json_null, json_text, is_audited, is_redacted,
  is_ignored, jsonable, rendered, Changes, changes_from, action_for, all_changes, cap,
}
use fastapi_template.Audit.Collecting.{
  Mapped, Objects, Recorded, column_history, links, Work, collect,
}
use fastapi_template.Audit.Listeners.{
  link_changes, row_pk_for, resolved, record_entry, write, flush, refuse_silent_bulk,
}
use fastapi_template.Audit.Listeners.Secrets.{blank_objects}
use fastapi_template.Audit.Listeners.Flushes.{flush-hides_secrets}
use fastapi_template.Audit.Listeners.Attributed.{IsAttributed, flush-IsAttributed}

abbrev account : Mapped
account = record {
  table = some "users";
  identity = some ("7" ∷ []);
  loaded =
      ("id", number_value 7)
      ∷ ("email", text_value "a@x")
      ∷ ("hashed_password", text_value "h2")
      ∷ [];
  history =
      ("hashed_password", record { added = text_value "h2" ∷ []; deleted = text_value "h1" ∷ [] })
      ∷ ("updated_at", record { added = moment_value "t2" ∷ []; deleted = moment_value "t1" ∷ [] })
      ∷ ("deleted_at", record { added = moment_value "t2" ∷ []; deleted = null ∷ [] })
      ∷ [];
  relations =
      record {
        secondary = some "user_roles";
        parent_column = some "user_id";
        child_column = some "role_id";
        linked = [];
        unlinked = 1 ∷ [];
      }
      ∷ [];
  label = none;
}

abbrev role : Mapped
role = record account {
  table = some "roles";
  identity = some ("2" ∷ []);
  relations = [];
  label = some "user";
}

abbrev objects : Objects
objects zero = account
objects (suc n) = role

abbrev work : Work
work = record { new = []; dirty = 0 ∷ []; deleted = [] }

abbrev none_long : Changes → ℕ
none_long changes = 0

-- The closing of the account, and the loss of its role
abbrev rows : List Recorded
rows =
    record {
      request_id = none;
      actor_id = none;
      impersonator_id = none;
      source = system_source;
      method = none;
      path = none;
      client_ip = none;
      table_name = "users";
      action = AuditAction.soft_delete;
      row_pk = some "7";
      changes = all_changes (
          ("deleted_at", (json_null, json_text "t2"))
          ∷ ("hashed_password", (json_text "***", json_text "***"))
          ∷ []);
      truncated = false;
    }
    ∷ record {
      request_id = none;
      actor_id = none;
      impersonator_id = none;
      source = system_source;
      method = none;
      path = none;
      client_ip = none;
      table_name = "user_roles";
      action = AuditAction.unlink;
      row_pk = some "7:2";
      changes = all_changes (
          ("user_id", (json_text "7", json_null))
          ∷ ("role_id", (json_text "2", json_null))
          ∷ ("name", (json_text "user", json_null))
          ∷ []);
      truncated = false;
    }
    ∷ []

flush-hides_secrets_example :
    flush none_long none false (blank_objects objects) (blank_objects objects) work [] ≡ (rows, [])
unfolding flush collect write links column_history is_audited is_ignored is_redacted changes_from
    rendered jsonable action_for cap resolved link_changes row_pk_for record_entry
flush-hides_secrets_example = flush-hides_secrets none_long none false objects objects work

flush-IsAttributed_example :
    All (IsAttributed none) (flush none_long none false objects objects work []).0
    × (flush none_long none true objects objects work [] ≡ ([], []))
flush-IsAttributed_example = flush-IsAttributed none none_long false objects objects work

refused_bulk : refuse_silent_bulk false true (some "items") ≡ err other_exception
unfolding refuse_silent_bulk is_audited
refused_bulk = refl
