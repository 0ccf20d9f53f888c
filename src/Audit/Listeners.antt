-- ===== src/Audit/Listeners.antt =====
-- What app/core/audit/listeners.py writes behind a flush, and its listeners.
pub mod Secrets
pub mod Hidden
pub mod Flushes
pub mod Attributed
mod Tests
use fastapi_template.Prelude.{
  ℕ, String, Bool, true, false, not, ◌||◌, Option, none, some, List, [], ◌∷◌, ◌++◌, map, str_eq,
  if◌then◌else◌, is_nil,
}
use fastapi_template.Errors.{other_exception, Result, ok, err}
use fastapi_template.Models.{AuditAction}
use fastapi_template.Audit.{AuditContext, or_system}
use fastapi_template.Audit.Diff.{Json, json_null, json_text, is_audited, Changes, changes_from, cap}
use fastapi_template.Audit.Collecting.{
  Objects, PendingRow, PendingLink, Pending, row, link_row, Recorded, joined_parts, identity_text,
  loaded_columns, Work, collect,
}

abbrev pub optional_text : Option String → Json
optional_text none = json_null
optional_text (some s) = json_text s

-- changes[key] = sides
abbrev pub set_change : String → Json × Json → Changes → Changes
set_change key sides [] = (key, sides) ∷ []
set_change key sides ((k, old) ∷ rest) =
    let later = set_change key sides rest in
    if str_eq k key then (k, sides) ∷ rest else (k, old) ∷ later

abbrev pub label_column : String
label_column = "name"

abbrev pub with_label : Option String → Changes → Changes
with_label none changes = changes
with_label (some s) changes = set_change label_column (json_null, json_text s) changes

abbrev pub turned : AuditAction → Changes → Changes
turned AuditAction.unlink changes = map (λ c. (c.0, (c.1.1, json_null))) changes
turned _ changes = changes

-- `_link_changes`
unfoldable pub link_changes : Objects → PendingLink → Changes
link_changes at entry = turned entry.action (
    with_label (at entry.child).label (
      set_change entry.child_column
        (json_null, optional_text (identity_text (at entry.child).identity))
        ((
          entry.parent_column,
          (json_null, optional_text (identity_text (at entry.parent).identity)),
        )
          ∷ [])))

-- str(…) of an identity
abbrev pub or_none_text : Option String → String
or_none_text none = "None"
or_none_text (some s) = s

-- `_row_pk_for`
unfoldable pub row_pk_for : Objects → PendingLink → String
row_pk_for at entry = joined_parts (
    or_none_text (identity_text (at entry.parent).identity)
    ∷ or_none_text (identity_text (at entry.child).identity)
    ∷ [])

abbrev pub is_insert : AuditAction → Bool
is_insert AuditAction.insert = true
is_insert _ = false

-- An insert is read once the flush has given it its key and its defaults.
abbrev pub completed : Objects → PendingRow → PendingRow
completed at r =
    if is_insert r.action
    then record r { after = loaded_columns (at r.obj); row_pk = identity_text (at r.obj).identity }
    else r

abbrev pub unless_empty : Changes → Option String → Option (Changes × Option String)
unless_empty changes row_pk = if is_nil changes then none else some (changes, row_pk)

-- `_resolved`
unfoldable pub resolved : Objects → Pending → Option (Changes × Option String)
resolved at (link_row entry) = some (link_changes at entry, some (row_pk_for at entry))
resolved at (row entry) =
    let r = completed at entry in unless_empty (changes_from r.before r.after) r.row_pk

abbrev pub pending_table : Pending → String
pending_table (row entry) = entry.table
pending_table (link_row entry) = entry.table

abbrev pub pending_action : Pending → AuditAction
pending_action (row entry) = entry.action
pending_action (link_row entry) = entry.action

-- `_record`
unfoldable pub record_entry :
    (Changes → ℕ) → AuditContext → Pending → Changes → Option String → Recorded
record_entry size context entry changes row_pk =
    let (document, truncated) = cap size changes in
    record {
      request_id = context.request_id;
      actor_id = context.actor_id;
      impersonator_id = context.impersonator_id;
      source = context.source;
      method = context.method;
      path = context.path;
      client_ip = context.client_ip;
      table_name = pending_table entry;
      action = pending_action entry;
      row_pk = row_pk;
      changes = document;
      truncated = truncated;
    }

abbrev pub recorded_if :
    (Changes → ℕ) → AuditContext → Pending → Option (Changes × Option String) → List Recorded
recorded_if size context entry none = []
recorded_if size context entry (some (changes, row_pk)) =
    record_entry size context entry changes row_pk ∷ []

-- `_write`: the rows of one INSERT
unfoldable pub write : (Changes → ℕ) → Option AuditContext → Objects → List Pending → List Recorded
write size current at [] = []
write size current at (entry ∷ pending) =
    recorded_if size (or_system current) entry (resolved at entry) ++ write size current at pending

-- The listeners of one flush: `collect` before it, and `write` or `_discard` behind it. What is
-- pending afterwards is nothing.
unfoldable pub flush :
    (Changes → ℕ)
    → Option AuditContext
    → Bool
    → Objects
    → Objects
    → Work
    → List Pending
    → List Recorded × List Pending
flush size current suppressed at later work pending =
    if suppressed then ([], []) else (write size current later (collect at work pending), [])

-- `refuse_silent_bulk`; UnauditedBulkMutation is an exception of its own.
unfoldable pub refuse_silent_bulk : Bool → Bool → Option String → Result (Unit {0})
refuse_silent_bulk suppressed is_mutation none = ok tt
refuse_silent_bulk suppressed is_mutation (some table) =
    if suppressed || not is_mutation
    then ok tt
    else if is_audited table
    then err other_exception
    else ok tt
