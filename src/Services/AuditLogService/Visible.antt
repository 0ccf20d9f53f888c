-- ===== src/Services/AuditLogService/Visible.antt =====
-- What a viewer of app/services/audit_log_service.py gets to see.
use fastapi_template.Prelude.{
  ℕ, ◌≡◌, refl, inl, inr, false, ◌&&◌, Option, none, some, List, [], ◌∷◌, arith, ◌==◌, Bool-cases,
  Option-cases, opt_eq, any, select, first,
}
use fastapi_template.Errors.{err}
use fastapi_template.Models.{AuditLog, Db, own, User}
use fastapi_template.Services.AuditLogService.{entry_missing, if_visible}
use fastapi_template.Services.AuditLogService
use fastapi_template.Repositories.AuditLogs

abbrev pub entry_of : ℕ → Db → Option AuditLog
entry_of entry_id db = first (select (λ r. r.id == entry_id) db.audit_logs.rows)

first_unseen :
    (entry_id user_id : ℕ) (rs : List AuditLog) (entry : AuditLog)
    → first (select (λ r. r.id == entry_id) rs) ≡ some entry
    → any (λ r. r.id == entry_id && opt_eq r.actor_id (some user_id)) rs ≡ false
    → opt_eq entry.actor_id (some user_id) ≡ false
first_unseen entry_id user_id [] entry h k = absurd (cc)
first_unseen entry_id user_id (r ∷ rs) entry h k = elim (Bool-cases (r.id == entry_id)) [
  | inl wanted ↦ ground (arith, wanted, h, k)
  | inr other ↦
      first_unseen entry_id user_id rs entry (ground (arith, other, h)) (ground (arith, other, k))
]

-- A viewer with the scope own that is not the actor of any row with an id gets the same answer for
-- that id as where no row has it.
pub get_for-hides :
    (viewer : User) (entry_id : ℕ) (db without : Db)
    → any (λ r. r.id == entry_id && opt_eq r.actor_id (some viewer.id)) db.audit_logs.rows ≡ false
    → entry_of entry_id without ≡ none
    → (AuditLogService.get_for viewer own entry_id db).0
      ≡ (AuditLogService.get_for viewer own entry_id without).0
unfolding AuditLogService.get_for AuditLogs.get
get_for-hides viewer entry_id db without nobody absent =
    rw absent (elim (Option-cases (entry_of entry_id db)) [
      | inl gone ↦ rw gone refl
      | inr (entry, found) ↦
          rw found
            (hidden entry (first_unseen entry_id viewer.id db.audit_logs.rows entry found nobody))
    ])
  where
    hidden :
        (entry : AuditLog)
        → opt_eq entry.actor_id (some viewer.id) ≡ false
        → (if_visible viewer own (some entry) db).0 ≡ err entry_missing
    hidden entry other = rw other refl
