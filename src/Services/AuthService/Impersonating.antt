-- ===== src/Services/AuthService/Impersonating.antt =====
-- Impersonation in app/services/auth_service.py.
use fastapi_template.Prelude.{
  ℕ, ◌≡◌, refl, sym, ◌≢◌, inl, inr, true, Option, none, some, List, [], ◌∷◌, ◌++◌, arith, ◌==◌,
  Bool-cases,
}
use fastapi_template.Errors.{ok}
use fastapi_template.Models.{AuditAction, impersonate_start, Change, AuditLog, Db, User}
use fastapi_template.Security.{seconds, Mint, decode_access_token}
use fastapi_template.Audit.{AuditContext, impersonation, or_system, audit_event, create_entry}
use fastapi_template.Authorization.{may_impersonate}
use fastapi_template.Services.AuthService.{
  ImpersonationGrant, Deployment, target_change, record_event, grant_for, impersonate,
}
use fastapi_template.Security.Claims.{IsCurrent, decode-create_impersonation}

-- The audit trail grew by one row, which names the event, the account of the request and the target.
pub record IsRecorded (d : Deployment) (current : Option AuditContext) (action : AuditAction)
    (target : User) (before after : Db) : Type 0 where
  pub entry : AuditLog
  pub trail : after.audit_logs.rows ≡ before.audit_logs.rows ++ entry ∷ []
  pub rest : record after { audit_logs = before.audit_logs } ≡ before
  pub what : (entry.table_name ≡ impersonation) × (entry.action ≡ action)
  pub who :
      (entry.actor_id ≡ (or_system current).actor_id)
      × (entry.impersonator_id ≡ (or_system current).impersonator_id)
  pub whom : entry.row_pk ≡ some (d.crypto.str target.id)

module _ (d : Deployment) (current : Option AuditContext) where
  record_event-IsRecorded :
      (action : AuditAction) (target : User) (changes : List Change) (at : ℕ) (db : Db)
      → IsRecorded d current action target db (record_event d current action target changes at db).1
  unfolding record_event audit_event create_entry
  record_event-IsRecorded action target changes at db = record {
    entry =
        audit_event current impersonation action (some (d.crypto.str target.id)) changes at
          db.audit_logs.next_id;
    trail = refl;
    rest = refl;
    what = (refl, refl);
    who = (refl, refl);
    whom = refl;
  }

  -- Where an impersonation starts, the target is another account that the actor may impersonate,
  -- the audit trail has exactly one more row, which names the event, the account of the request
  -- and the target, and no other table changed. Until it expires the token decodes to the target
  -- as its subject and the actor as its impersonator.
  pub impersonate-IsRecorded :
      (actor target : User) (at : ℕ) (mint : Mint) (now : ℕ)
      (grant : ImpersonationGrant d.crypto.Text) (db : Db)
      → (impersonate d current actor target at mint db).0 ≡ ok grant
      → IsCurrent mint d.lifetimes.impersonation now
      → (target.id ≢ actor.id)
        × (may_impersonate actor target ≡ true)
        × IsRecorded d current impersonate_start target db
            (impersonate d current actor target at mint db).1
        × (decode_access_token d.crypto now grant.access_token
            ≡ ok (record {
              subject = d.crypto.str target.id;
              impersonator = some (d.crypto.str actor.id);
              issued_at = seconds mint.at;
            }))
  unfolding impersonate record_event audit_event create_entry
  impersonate-IsRecorded actor target at mint now grant db h current_token =
      elim (Bool-cases (target.id == actor.id)) [
        | inl self ↦ absurd (ground (arith, self, h))
        | inr other ↦ elim (Bool-cases (may_impersonate actor target)) [
          | inr refused ↦ absurd (ground (arith, other, refused, h))
          | inl allowed ↦
              let same : grant_for d actor target mint ≡ grant =
                ground (arith, other, allowed, h) in
              rw (sym same, other, allowed)
                (
                  ground (arith, other),
                  refl,
                  record_event-IsRecorded impersonate_start target
                      (target_change d none (some target.id)) at db,
                  decode-create_impersonation d.crypto d.lifetimes (d.crypto.str target.id) mint now
                      (d.crypto.str actor.id) current_token,
                )
        ]
      ]
