-- ===== src/Audit/Collecting.antt =====
-- What app/core/audit/listeners.py collects before a flush. SQLAlchemy's view of an object (its mapper, state and history) is a
-- record, and an object is its number: what it is before the flush, and what it is after.
use fastapi_template.Prelude.{
  ℕ, String, Bool, not, ◌&&◌, Option, none, some, List, [], ◌∷◌, ◌++◌, map, if◌then◌else◌, is_nil,
  select, followed,
}
use fastapi_template.Models.{AuditAction}
use fastapi_template.Audit.Diff.{Value, null, is_audited, is_ignored, Columns, action_for, Document}

-- attributes.get_history
pub record History : Type 0 where
  pub added : List Value
  pub deleted : List Value

-- A relationship with the columns of its secondary table, and the objects linked and unlinked
pub record Relation : Type 0 where
  pub secondary : Option String
  pub parent_column : Option String
  pub child_column : Option String
  pub linked : List ℕ
  pub unlinked : List ℕ

-- The mapped table, the identity as texts, the columns in state.dict, the history of each column,
-- the relationships, and the text of the attribute `name` in state.dict unless it is None.
pub record Mapped : Type 0 where
  pub table : Option String
  pub identity : Option (List String)
  pub loaded : Columns
  pub history : List (String × History)
  pub relations : List Relation
  pub label : Option String

abbrev pub Objects : Type 0
Objects = ℕ → Mapped

pub record PendingRow : Type 0 where
  pub obj : ℕ
  pub table : String
  pub action : AuditAction
  pub before : Columns
  pub after : Columns
  pub row_pk : Option String

pub record PendingLink : Type 0 where
  pub table : String
  pub action : AuditAction
  pub parent : ℕ
  pub child : ℕ
  pub parent_column : String
  pub child_column : String

pub data Pending : Type 0 where
  row : PendingRow → Pending
  link_row : PendingLink → Pending

-- A row of `audit_logs`, before its id and its moment
pub record Recorded : Type 0 where
  pub request_id : Option String
  pub actor_id : Option ℕ
  pub impersonator_id : Option ℕ
  pub source : String
  pub method : Option String
  pub path : Option String
  pub client_ip : Option String
  pub table_name : String
  pub action : AuditAction
  pub row_pk : Option String
  pub changes : Document
  pub truncated : Bool

abbrev pub joined_parts : List String → String
joined_parts [] = ""
joined_parts (part ∷ []) = part
joined_parts (part ∷ next ∷ parts) = followed part (followed ":" (joined_parts (next ∷ parts)))

-- `_identity_of`
abbrev pub identity_text : Option (List String) → Option String
identity_text none = none
identity_text (some parts) = some (joined_parts parts)

-- `_loaded_columns`
unfoldable pub loaded_columns : Mapped → Columns
loaded_columns m = select (λ c. not (is_ignored c.0)) m.loaded

abbrev pub is_changed : History → Bool
is_changed h = not (is_nil h.added && is_nil h.deleted)

abbrev pub first_value : List Value → Value
first_value [] = null
first_value (v ∷ rest) = v

abbrev pub is_kept : String × History → Bool
is_kept (column, h) = not (is_ignored column) && is_changed h

-- `_column_history`: the columns with a change, as they were and as they are
unfoldable pub column_history : List (String × History) → Columns × Columns
column_history entries = (
  map (λ e. (e.0, first_value e.1.deleted)) (select is_kept entries),
  map (λ e. (e.0, first_value e.1.added)) (select is_kept entries),
)

abbrev pub link_to : String → AuditAction → ℕ → String → String → ℕ → Pending
link_to table action parent parent_column child_column child = link_row (record {
  table = table;
  action = action;
  parent = parent;
  child = child;
  parent_column = parent_column;
  child_column = child_column;
})

abbrev pub links_by : ℕ → Option String → Option String → Option String → Relation → List Pending
links_by parent (some table) (some parent_column) (some child_column) r =
    if is_audited table
    then map (link_to table AuditAction.link parent parent_column child_column) r.linked
      ++ map (link_to table AuditAction.unlink parent parent_column child_column) r.unlinked
    else []
links_by parent _ _ _ r = []

abbrev pub links_of : ℕ → List Relation → List Pending
links_of parent [] = []
links_of parent (r ∷ rest) =
    links_by parent r.secondary r.parent_column r.child_column r ++ links_of parent rest

-- `_links`
unfoldable pub links : ℕ → Mapped → List Pending
links obj m = links_of obj m.relations

-- table is not None and is_audited(table)
abbrev pub audited_only : Option String → (String → List Pending) → List Pending
audited_only none make = []
audited_only (some table) make = if is_audited table then make table else []

abbrev pub inserted : ℕ → String → List Pending
inserted obj table =
    row (record {
      obj = obj;
      table = table;
      action = AuditAction.insert;
      before = [];
      after = [];
      row_pk = none;
    })
    ∷ []

abbrev pub updated : ℕ → Mapped → String → List Pending
updated obj m table =
    let (before, after) = column_history m.history in
    if is_nil after
    then []
    else row (record {
      obj = obj;
      table = table;
      action = action_for before after;
      before = before;
      after = after;
      row_pk = identity_text m.identity;
    })
      ∷ []

abbrev pub deleted_row : ℕ → Mapped → String → List Pending
deleted_row obj m table =
    row (record {
      obj = obj;
      table = table;
      action = AuditAction.delete;
      before = loaded_columns m;
      after = [];
      row_pk = identity_text m.identity;
    })
    ∷ []

-- session.new, session.dirty and session.deleted
pub record Work : Type 0 where
  pub new : List ℕ
  pub dirty : List ℕ
  pub deleted : List ℕ

abbrev pub each : (ℕ → List Pending) → List ℕ → List Pending
each f [] = []
each f (obj ∷ rest) = f obj ++ each f rest

-- `_collect`, behind what was pending
unfoldable pub collect : Objects → Work → List Pending → List Pending
collect at work pending =
    pending
    ++ (each (λ o. audited_only (at o).table (inserted o) ++ links o (at o)) work.new
        ++ (each (λ o. audited_only (at o).table (updated o (at o)) ++ links o (at o)) work.dirty
            ++ each (λ o. audited_only (at o).table (deleted_row o (at o))) work.deleted))
