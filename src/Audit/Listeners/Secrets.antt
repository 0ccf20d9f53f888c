-- ===== src/Audit/Listeners/Secrets.antt =====
-- No redacted value reaches a row of the trail, in app/core/audit/listeners.py.
-- The same columns, histories and objects, with nothing in the redacted columns.
use fastapi_template.Prelude.{
  String, ◌≡◌, refl, inl, inr, false, not, List, [], ◌∷◌, map, str_eq, eq_iff, if◌then◌else◌,
  Bool-cases, is_nil, select,
}
use fastapi_template.Audit.Diff.{
  Value, null, is_redacted, is_ignored, Columns, get_column, has_column, name_set, rendered,
  sides_of, changes_from, deleted_at_column, action_for,
}
use fastapi_template.Audit.Collecting.{
  History, Mapped, Objects, Pending, row, link_row, first_value, is_kept,
}

abbrev pub blank_value : String × Value → String × Value
blank_value (name, v) = (name, if is_redacted name then null else v)

abbrev pub blank : Columns → Columns
blank columns = map blank_value columns

abbrev pub blank_values : List Value → List Value
blank_values values = map (λ v. null) values

abbrev pub blank_entry : String × History → String × History
blank_entry (name, h) = (
  name,
  if is_redacted name
      then record { added = blank_values h.added; deleted = blank_values h.deleted }
      else h,
)

abbrev pub blanked : Mapped → Mapped
blanked m = record m { loaded = blank m.loaded; history = map blank_entry m.history }

abbrev pub blank_objects : Objects → Objects
blank_objects at obj = blanked (at obj)

abbrev pub blank_pending : Pending → Pending
blank_pending (row r) = row (record r { before = blank r.before; after = blank r.after })
blank_pending (link_row l) = link_row l

get-blank :
    (column : String) (cs : Columns)
    → is_redacted column ≡ false
    → get_column column (blank cs) ≡ get_column column cs
get-blank column [] open_ = refl
get-blank column ((name, v) ∷ cs) open_ = elim (Bool-cases (str_eq name column)) [
  | inr other ↦ rw other (get-blank column cs open_)
  | inl same ↦ rw (same, (eq_iff name column).0 same, open_) refl
]

rendered-blank :
    (column : String) (cs : Columns)
    → rendered column (get_column column (blank cs)) ≡ rendered column (get_column column cs)
unfolding rendered
rendered-blank column cs = elim (Bool-cases (is_redacted column)) [
  | inl secret ↦ rw secret refl
  | inr open_ ↦ rw (get-blank column cs open_) refl
]

name_set-blank :
    (cs : Columns) (names : List String) → name_set (blank cs) names ≡ name_set cs names
name_set-blank [] names = refl
name_set-blank ((name, v) ∷ cs) names = rw (name_set-blank cs names) refl

sides-blank :
    (before after : Columns) (names : List String)
    → sides_of (blank before) (blank after) names ≡ sides_of before after names
sides-blank before after [] = refl
sides-blank before after (column ∷ names) =
    rw (rendered-blank column before, rendered-blank column after, sides-blank before after names)
      refl

pub changes_from-blank :
    (before after : Columns) → changes_from (blank before) (blank after) ≡ changes_from before after
unfolding changes_from
changes_from-blank before after =
    rw (name_set-blank after [], name_set-blank before (name_set after []))
      (sides-blank before after _)

has-blank : (column : String) (cs : Columns) → has_column column (blank cs) ≡ has_column column cs
has-blank column [] = refl
has-blank column ((name, v) ∷ cs) = rw (has-blank column cs) refl

pub action_for-blank :
    (before after : Columns) → action_for (blank before) (blank after) ≡ action_for before after
unfolding action_for is_redacted
action_for-blank before after =
    rw
      (
        has-blank deleted_at_column after,
        get-blank deleted_at_column before refl,
        get-blank deleted_at_column after refl,
      )
      refl

pub loaded_columns-blank :
    (cs : Columns)
    → select (λ c. not (is_ignored c.0)) (blank cs) ≡ blank (select (λ c. not (is_ignored c.0)) cs)
loaded_columns-blank [] = refl
loaded_columns-blank ((name, v) ∷ cs) = elim (Bool-cases (is_ignored name)) [
  | inl ignored ↦ rw ignored (loaded_columns-blank cs)
  | inr kept ↦ rw (kept, loaded_columns-blank cs) refl
]

is_nil-blank : (vs : List Value) → is_nil (blank_values vs) ≡ is_nil vs
is_nil-blank [] = refl
is_nil-blank (v ∷ vs) = refl

pub first-blank : (vs : List Value) → first_value (blank_values vs) ≡ null
first-blank [] = refl
first-blank (v ∷ vs) = refl

is_kept-blank : (e : String × History) → is_kept (blank_entry e) ≡ is_kept e
is_kept-blank (name, h) = elim (Bool-cases (is_redacted name)) [
  | inl secret ↦ rw (secret, is_nil-blank h.added, is_nil-blank h.deleted) refl
  | inr open_ ↦ rw open_ refl
]

pub kept-blank :
    (es : List (String × History))
    → select is_kept (map blank_entry es) ≡ map blank_entry (select is_kept es)
kept-blank [] = refl
kept-blank (e ∷ es) = elim (Bool-cases (is_kept e)) [
  | inl kept ↦ rw (is_kept-blank e, kept, kept-blank es) refl
  | inr same ↦ rw (is_kept-blank e, same) (kept-blank es)
]
