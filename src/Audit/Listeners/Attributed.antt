-- ===== src/Audit/Listeners/Attributed.antt =====
-- Whose rows a flush writes, in app/core/audit/listeners.py.
use fastapi_template.Prelude.{
  ℕ, String, ◌≡◌, refl, inl, inr, Bool, true, false, Option, none, some, List, [], ◌∷◌, map,
  Bool-cases, is_nil, All, All-append,
}
use fastapi_template.Models.{AuditAction}
use fastapi_template.Audit.{AuditContext, or_system}
use fastapi_template.Audit.Diff.{is_audited, Changes}
use fastapi_template.Audit.Collecting.{
  Relation, Mapped, Objects, Pending, Recorded, column_history, link_to, links_by, links_of, links,
  audited_only, inserted, updated, deleted_row, Work, each, collect,
}
use fastapi_template.Audit.Listeners.{
  resolved, pending_table, record_entry, recorded_if, write, flush,
}

module _ (current : Option AuditContext) where
  -- The row has each part of the context.
  abbrev pub Carries : Recorded → AuditContext → Type 0
  Carries r context =
      (r.request_id ≡ context.request_id)
      × (r.actor_id ≡ context.actor_id)
      × (r.impersonator_id ≡ context.impersonator_id)
      × (r.source ≡ context.source)
      × (r.method ≡ context.method)
      × (r.path ≡ context.path)
      × (r.client_ip ≡ context.client_ip)

  -- A row of an audited table, for the account of the request
  abbrev pub IsAttributed : Recorded → Type 0
  IsAttributed r = (is_audited r.table_name ≡ true) × Carries r (or_system current)

  abbrev OfAudited : Pending → Type 0
  OfAudited p = is_audited (pending_table p) ≡ true

  rows_of :
      (o : Option String) (make : String → List Pending)
      → ((table : String) → is_audited table ≡ true → All OfAudited (make table))
      → All OfAudited (audited_only o make)
  rows_of none make h = tt
  rows_of (some table) make h = elim (Bool-cases (is_audited table)) [
    | inl audited ↦ rw audited (h table audited)
    | inr out ↦ rw out tt
  ]

  All-links :
      (table : String) (action : AuditAction) (parent : ℕ) (p c : String)
      → is_audited table ≡ true
      → (objs : List ℕ) → All OfAudited (map (link_to table action parent p c) objs)
  All-links table action parent p c audited [] = tt
  All-links table action parent p c audited (o ∷ objs) =
      (audited, All-links table action parent p c audited objs)

  links_by-All :
      (obj : ℕ) (table p c : Option String) (r : Relation)
      → All OfAudited (links_by obj table p c r)
  links_by-All obj (some table) (some p) (some c) r = elim (Bool-cases (is_audited table)) [
    | inr out ↦ rw out tt
    | inl audited ↦ rw audited (
        All-append OfAudited _ _ (All-links table AuditAction.link obj p c audited r.linked)
          (All-links table AuditAction.unlink obj p c audited r.unlinked))
  ]
  links_by-All obj none p c r = tt
  links_by-All obj (some table) none c r = tt
  links_by-All obj (some table) (some p) none r = tt

  links_of-All : (obj : ℕ) (rs : List Relation) → All OfAudited (links_of obj rs)
  links_of-All obj [] = tt
  links_of-All obj (r ∷ rs) =
      All-append OfAudited _ _ (links_by-All obj r.secondary r.parent_column r.child_column r)
        (links_of-All obj rs)

  updated-All :
      (obj : ℕ) (m : Mapped) (table : String)
      → is_audited table ≡ true
      → All OfAudited (updated obj m table)
  updated-All obj m table audited = elim (Bool-cases (is_nil (column_history m.history).1)) [
    | inl nothing ↦ rw nothing tt
    | inr something ↦ rw something (audited, tt)
  ]

  each-All :
      (f : ℕ → List Pending) (objs : List ℕ)
      → ((obj : ℕ) → All OfAudited (f obj))
      → All OfAudited (each f objs)
  each-All f [] h = tt
  each-All f (obj ∷ objs) h = All-append OfAudited _ _ (h obj) (each-All f objs h)

  collect-All : (at : Objects) (work : Work) → All OfAudited (collect at work [])
  unfolding collect links
  collect-All at work =
      All-append OfAudited _ _
        (each-All _ work.new (λ o.
          All-append OfAudited _ _ (rows_of (at o).table (inserted o) (λ t audited. (audited, tt)))
            (links_of-All o (at o).relations)))
        (All-append OfAudited _ _
          (each-All _ work.dirty (λ o.
            All-append OfAudited _ _
              (rows_of (at o).table (updated o (at o)) (updated-All o (at o)))
              (links_of-All o (at o).relations)))
          (each-All _ work.deleted
            (λ o. rows_of (at o).table (deleted_row o (at o)) (λ t audited. (audited, tt)))))

  recorded-All :
      (size : Changes → ℕ) (p : Pending) (o : Option (Changes × Option String))
      → OfAudited p
      → All IsAttributed (recorded_if size (or_system current) p o)
  unfolding record_entry
  recorded-All size p none h = tt
  recorded-All size p (some (changes, row_pk)) h =
      ((h, (refl, refl, refl, refl, refl, refl, refl)), tt)

  write-All :
      (size : Changes → ℕ) (later : Objects) (ps : List Pending)
      → All OfAudited ps
      → All IsAttributed (write size current later ps)
  unfolding write
  write-All size later [] h = tt
  write-All size later (p ∷ ps) h =
      All-append IsAttributed _ _ (recorded-All size p (resolved later p) h.0)
        (write-All size later ps h.1)

  -- Every row that a flush writes to the audit trail is of a table that is audited and has each
  -- part of the context that is current, or of that of the system without one, and a flush that is
  -- suppressed writes none.
  pub flush-IsAttributed :
      (size : Changes → ℕ) (suppressed : Bool) (at later : Objects) (work : Work)
      → All IsAttributed (flush size current suppressed at later work []).0
        × (flush size current true at later work [] ≡ ([], []))
  unfolding flush
  flush-IsAttributed size true at later work = (tt, refl)
  flush-IsAttributed size false at later work =
      (write-All size later (collect at work []) (collect-All at work), refl)
