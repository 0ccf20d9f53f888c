-- ===== src/Audit/Listeners/Flushes.antt =====
-- What a flush writes to the trail, in app/core/audit/listeners.py.
use fastapi_template.Prelude.{
  ℕ, String, ◌≡◌, refl, sym, inl, inr, Bool, not, Option, none, some, List, [], ◌∷◌, ◌++◌, map,
  Bool-cases, select,
}
use fastapi_template.Audit.{AuditContext, or_system}
use fastapi_template.Audit.Diff.{is_ignored, Changes}
use fastapi_template.Audit.Collecting.{
  Objects, Pending, row, link_row, loaded_columns, links_of, links, audited_only, inserted, updated,
  deleted_row, Work, each, collect,
}
use fastapi_template.Audit.Listeners.{
  link_changes, row_pk_for, is_insert, resolved, record_entry, recorded_if, write, flush,
}
use fastapi_template.Audit.Listeners.Secrets.{
  blanked, blank_objects, blank_pending, changes_from-blank, loaded_columns-blank,
}
use fastapi_template.Audit.Listeners.Hidden.{
  map-append, updated-blank, deleted_row-blank, links_of-blank, audited_only-blank, each-blank,
}
use mathlib.Core.Path.{ap, ap₂}

collect-blank :
    (at : Objects) (work : Work)
    → collect (blank_objects at) work [] ≡ map blank_pending (collect at work [])
unfolding collect links
collect-blank at work =
    let news : ℕ → List Pending = λ o. audited_only (at o).table (inserted o) ++ links o (at o) in
    let dirties : ℕ → List Pending =
      λ o. audited_only (at o).table (updated o (at o)) ++ links o (at o) in
    let goners : ℕ → List Pending = λ o. audited_only (at o).table (deleted_row o (at o)) in
    rw
      (
        map-append blank_pending (each news work.new)
            (each dirties work.dirty ++ each goners work.deleted),
        map-append blank_pending (each dirties work.dirty) (each goners work.deleted),
      )
      (ap₂ ◌++◌
        (each-blank news _ work.new (λ o. sym (
          rw
            (
              map-append blank_pending (audited_only (at o).table (inserted o))
                  (links_of o (at o).relations),
              links_of-blank o (at o).relations,
            )
            (ap (λ x. x ++ links_of o (at o).relations)
              (sym (audited_only-blank (at o).table (inserted o) (inserted o) (λ t. refl)))))))
        (ap₂ ◌++◌
          (each-blank dirties _ work.dirty (λ o. sym (
            rw
              (
                map-append blank_pending (audited_only (at o).table (updated o (at o)))
                    (links_of o (at o).relations),
                links_of-blank o (at o).relations,
              )
              (ap (λ x. x ++ links_of o (at o).relations)
                (sym (
                  audited_only-blank (at o).table (updated o (at o)) (updated o (blanked (at o)))
                    (updated-blank o (at o))))))))
          (each-blank goners _ work.deleted (λ o.
            audited_only-blank (at o).table (deleted_row o (at o)) (deleted_row o (blanked (at o)))
              (deleted_row-blank o (at o))))))

resolved-blank :
    (later : Objects) (p : Pending)
    → resolved (blank_objects later) (blank_pending p) ≡ resolved later p
unfolding resolved link_changes row_pk_for loaded_columns
resolved-blank later (link_row l) = refl
resolved-blank later (row r) = elim (Bool-cases (is_insert r.action)) [
  | inl inserting ↦
      rw
        (
          inserting,
          loaded_columns-blank (later r.obj).loaded,
          changes_from-blank r.before (select (λ c. not (is_ignored c.0)) (later r.obj).loaded),
        )
        refl
  | inr other ↦ rw (other, changes_from-blank r.before r.after) refl
]

recorded-blank :
    (size : Changes → ℕ) (context : AuditContext) (p : Pending)
    (o : Option (Changes × Option String))
    → recorded_if size context (blank_pending p) o ≡ recorded_if size context p o
unfolding record_entry
recorded-blank size context p none = refl
recorded-blank size context (row r) (some (changes, row_pk)) = refl
recorded-blank size context (link_row l) (some (changes, row_pk)) = refl

write-blank :
    (size : Changes → ℕ) (current : Option AuditContext) (later : Objects) (ps : List Pending)
    → write size current (blank_objects later) (map blank_pending ps) ≡ write size current later ps
unfolding write
write-blank size current later [] = refl
write-blank size current later (p ∷ ps) =
    rw
      (
        resolved-blank later p,
        recorded-blank size (or_system current) p (resolved later p),
        write-blank size current later ps,
      )
      refl

-- Whatever objects a flush inserts, changes, deletes and links, and whatever their histories are:
-- the rows that it writes to the audit trail are the same where every value of a redacted column
-- is taken out of the objects and of their histories, before the flush and behind it.
pub flush-hides_secrets :
    (size : Changes → ℕ) (current : Option AuditContext) (suppressed : Bool) (at later : Objects)
    (work : Work)
    → flush size current suppressed (blank_objects at) (blank_objects later) work []
      ≡ flush size current suppressed at later work []
unfolding flush
flush-hides_secrets size current suppressed at later work =
    rw (collect-blank at work, write-blank size current later (collect at work [])) refl
