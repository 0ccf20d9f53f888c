-- ===== src/Audit/Diff.antt =====
-- app/core/audit/policy.py and app/core/audit/diff.py.
-- A value of a column: what `jsonable` tells apart. Text of a date, of a Decimal or UUID, and of
-- anything else are as Python's isoformat and str give them.
use fastapi_template.Prelude.{
  ℕ, String, Bool, true, false, not, ◌&&◌, List, [], ◌∷◌, map, str_eq, ltb, leb, if◌then◌else◌,
  length, any, Bytes, codes, str_le, sort_by,
}
use fastapi_template.Models.{AuditAction}

pub data Value : Type 0 where
  null : Value
  flag : Bool → Value
  number_value : ℕ → Value
  bytes_value : Bytes → Value
  enum_value : Value → Value
  moment_value : String → Value
  exact_value : String → Value
  text_value : String → Value
  other_value : String → Value

pub data Json : Type 0 where
  json_null : Json
  json_flag : Bool → Json
  json_number : ℕ → Json
  json_text : String → Json
  truncated_at : ℕ → Json

abbrev pub excluded_tables : List String
excluded_tables =
    "audit_logs" ∷ "request_logs" ∷ "refresh_tokens" ∷ "single_use_tokens" ∷ "idempotency_keys"
    ∷ "alembic_version" ∷ []

abbrev pub redacted_columns : List String
redacted_columns = "hashed_password" ∷ "token_hash" ∷ "password" ∷ "secret" ∷ "api_key" ∷ []

abbrev pub ignored_columns : List String
ignored_columns = "created_at" ∷ "updated_at" ∷ []

abbrev pub redacted_placeholder : String
redacted_placeholder = "***"

abbrev pub max_value_chars : ℕ
max_value_chars = 1000

abbrev pub max_document_bytes : ℕ
max_document_bytes = 65536

unfoldable pub is_audited : String → Bool
is_audited table_name = not (any (str_eq table_name) excluded_tables)

unfoldable pub is_redacted : String → Bool
is_redacted column = any (str_eq column) redacted_columns

unfoldable pub is_ignored : String → Bool
is_ignored column = any (str_eq column) ignored_columns

abbrev pub shortened : String → Json
shortened s =
    if ltb max_value_chars (length (codes s)) then truncated_at (length (codes s)) else json_text s

unfoldable pub jsonable : Value → Json
jsonable null = json_null
jsonable (flag b) = json_flag b
jsonable (number_value n) = json_number n
jsonable (bytes_value bytes) = truncated_at (length bytes)
jsonable (enum_value v) = jsonable v
jsonable (moment_value s) = json_text s
jsonable (exact_value s) = json_text s
jsonable (text_value s) = shortened s
jsonable (other_value s) = shortened s

-- dict[str, Any]: columns with their values, each column once
abbrev pub Columns : Type 0
Columns = List (String × Value)

abbrev pub get_column : String → Columns → Value
get_column column [] = null
get_column column ((name, v) ∷ rest) = if str_eq name column then v else get_column column rest

abbrev pub has_column : String → Columns → Bool
has_column column columns = any (λ c. str_eq c.0 column) columns

-- sorted(set(…))
abbrev pub add_name : String → List String → List String
add_name s [] = s ∷ []
add_name s (t ∷ ts) =
    let rest = add_name s ts in
    if str_eq s t then t ∷ ts else if str_le s t then s ∷ t ∷ ts else t ∷ rest

abbrev pub name_set : Columns → List String → List String
name_set [] names = names
name_set ((name, v) ∷ rest) names = add_name name (name_set rest names)

unfoldable pub rendered : String → Value → Json
rendered column v = if is_redacted column then json_text redacted_placeholder else jsonable v

-- dict[str, {"old", "new"}]
abbrev pub Changes : Type 0
Changes = List (String × (Json × Json))

abbrev pub sides_of : Columns → Columns → List String → Changes
sides_of before after [] = []
sides_of before after (column ∷ columns) =
    let rest = sides_of before after columns in
    if is_ignored column
    then rest
    else (
      column,
      (rendered column (get_column column before), rendered column (get_column column after)),
    )
      ∷ rest

unfoldable pub changes_from : Columns → Columns → Changes
changes_from before after = sides_of before after (name_set before (name_set after []))

abbrev pub is_null : Value → Bool
is_null null = true
is_null _ = false

abbrev pub deleted_at_column : String
deleted_at_column = "deleted_at"

unfoldable pub action_for : Columns → Columns → AuditAction
action_for before after =
    let was_deleted = not (is_null (get_column deleted_at_column before)) in
    let is_deleted = not (is_null (get_column deleted_at_column after)) in
    if not (has_column deleted_at_column after)
    then AuditAction.update
    else if is_deleted && not was_deleted
    then AuditAction.soft_delete
    else if was_deleted && not is_deleted
    then AuditAction.restore
    else AuditAction.update

-- The JSON that a row stores: the changes, or the fields alone
pub data Document : Type 0 where
  all_changes : Changes → Document
  summary : List String → Document

-- `size` is the number of bytes of json.dumps(changes).
unfoldable pub cap : (Changes → ℕ) → Changes → Document × Bool
cap size changes =
    if leb (size changes) max_document_bytes
    then (all_changes changes, false)
    else (summary (sort_by str_le (map (λ c. c.0) changes)), true)
