-- ===== src/Audit/Listeners/Hidden.antt =====
-- The rows that a flush writes, in app/core/audit/listeners.py, do not depend on a redacted value.
use fastapi_template.Prelude.{
  ℕ, String, ◌≡◌, refl, inl, inr, Option, none, some, List, [], ◌∷◌, ◌++◌, map, Bool-cases, is_nil,
  select,
}
use fastapi_template.Models.{AuditAction}
use fastapi_template.Audit.Diff.{Value, is_audited, is_redacted}
use fastapi_template.Audit.Collecting.{
  History, Relation, Mapped, Pending, loaded_columns, first_value, is_kept, column_history, link_to,
  links_by, links_of, audited_only, updated, deleted_row, each,
}
use fastapi_template.Audit.Listeners.Secrets.{
  blank_value, blank, blank_values, blank_entry, blanked, blank_pending, action_for-blank,
  loaded_columns-blank, first-blank, kept-blank,
}

pub map-append :
    {A B : Type 0} (f : A → B) (xs ys : List A) → map f (xs ++ ys) ≡ map f xs ++ map f ys
map-append f [] ys = refl
map-append f (x ∷ xs) ys = rw (map-append f xs ys) refl

map-same :
    {A B : Type 0} (f : A → B) (g : B → B) (xs : List A)
    → ((a : A) → g (f a) ≡ f a)
    → map g (map f xs) ≡ map f xs
map-same f g [] h = refl
map-same f g (x ∷ xs) h = rw (h x, map-same f g xs h) refl

is_nil-map : {A B : Type 0} (f : A → B) (xs : List A) → is_nil (map f xs) ≡ is_nil xs
is_nil-map f [] = refl
is_nil-map f (x ∷ xs) = refl

-- The columns of a history, where `side` gives the old or the new values
sides-blank_entry :
    (side : History → List Value)
    → ((added deleted : List Value)
        → side (record { added = blank_values added; deleted = blank_values deleted })
          ≡ blank_values (side (record { added = added; deleted = deleted })))
    → (es : List (String × History))
    → map (λ e. (e.0, first_value (side e.1))) (map blank_entry es)
      ≡ blank (map (λ e. (e.0, first_value (side e.1))) es)
sides-blank_entry side h [] = refl
sides-blank_entry side h ((name, hist) ∷ es) = elim (Bool-cases (is_redacted name)) [
  | inl secret ↦
      rw (secret, h hist.added hist.deleted, first-blank (side hist), sides-blank_entry side h es)
        refl
  | inr open_ ↦ rw (open_, sides-blank_entry side h es) refl
]

column_history-blank :
    (es : List (String × History))
    → ((column_history (map blank_entry es)).0 ≡ blank (column_history es).0)
      × ((column_history (map blank_entry es)).1 ≡ blank (column_history es).1)
unfolding column_history
column_history-blank es = (
  rw (kept-blank es)
      (sides-blank_entry (λ h. h.deleted) (λ added deleted. refl) (select is_kept es)),
  rw (kept-blank es) (sides-blank_entry (λ h. h.added) (λ added deleted. refl) (select is_kept es)),
)

pub updated-blank :
    (obj : ℕ) (m : Mapped) (table : String)
    → updated obj (blanked m) table ≡ map blank_pending (updated obj m table)
updated-blank obj m table =
    let c = column_history-blank m.history in
    elim (Bool-cases (is_nil (column_history m.history).1)) [
      | inl nothing ↦ rw (c.1, is_nil-map blank_value (column_history m.history).1, nothing) refl
      | inr something ↦
          rw
            (
              c.1,
              c.0,
              is_nil-map blank_value (column_history m.history).1,
              something,
              action_for-blank (column_history m.history).0 (column_history m.history).1,
            )
            refl
    ]

pub deleted_row-blank :
    (obj : ℕ) (m : Mapped) (table : String)
    → deleted_row obj (blanked m) table ≡ map blank_pending (deleted_row obj m table)
unfolding loaded_columns
deleted_row-blank obj m table = rw (loaded_columns-blank m.loaded) refl

links_by-blank :
    (obj : ℕ) (table parent_column child_column : Option String) (r : Relation)
    → map blank_pending (links_by obj table parent_column child_column r)
      ≡ links_by obj table parent_column child_column r
links_by-blank obj (some table) (some p) (some c) r = elim (Bool-cases (is_audited table)) [
  | inr out ↦ rw out refl
  | inl audited ↦
      rw
        (
          audited,
          map-append blank_pending (map (link_to table AuditAction.link obj p c) r.linked)
              (map (link_to table AuditAction.unlink obj p c) r.unlinked),
          map-same (link_to table AuditAction.link obj p c) blank_pending r.linked (λ a. refl),
          map-same (link_to table AuditAction.unlink obj p c) blank_pending r.unlinked (λ a. refl),
        )
        refl
]
links_by-blank obj none p c r = refl
links_by-blank obj (some table) none c r = refl
links_by-blank obj (some table) (some p) none r = refl

pub links_of-blank :
    (obj : ℕ) (rs : List Relation) → map blank_pending (links_of obj rs) ≡ links_of obj rs
links_of-blank obj [] = refl
links_of-blank obj (r ∷ rs) =
    rw
      (
        map-append blank_pending (links_by obj r.secondary r.parent_column r.child_column r)
            (links_of obj rs),
        links_by-blank obj r.secondary r.parent_column r.child_column r,
        links_of-blank obj rs,
      )
      refl

pub audited_only-blank :
    (o : Option String) (make blank_make : String → List Pending)
    → ((table : String) → blank_make table ≡ map blank_pending (make table))
    → audited_only o blank_make ≡ map blank_pending (audited_only o make)
audited_only-blank none make blank_make h = refl
audited_only-blank (some table) make blank_make h = elim (Bool-cases (is_audited table)) [
  | inl audited ↦ rw audited (h table)
  | inr out ↦ rw out refl
]

pub each-blank :
    (f g : ℕ → List Pending) (objs : List ℕ)
    → ((obj : ℕ) → g obj ≡ map blank_pending (f obj))
    → each g objs ≡ map blank_pending (each f objs)
each-blank f g [] h = refl
each-blank f g (obj ∷ objs) h =
    rw (map-append blank_pending (f obj) (each f objs), h obj, each-blank f g objs h) refl
