-- ===== src/Services/IdempotencyService/Replay.antt =====
-- The contract of app/services/idempotency_service.py: one caller runs, and the others get its answer.
use fastapi_template.Prelude.{
  ℕ, ◌+◌, ◌≤◌, String, ◌≡◌, refl, ◌∙◌, ◌⊎◌, inl, inr, Bool, true, false, ◌&&◌, some, arith, str_eq,
  Bool-cases, Option-cases, select, first,
}
use fastapi_template.Errors.{ok}
use fastapi_template.Models.{IdempotencyKey, Db}
use fastapi_template.Services.IdempotencyService.{
  fresh, replay, mismatch, in_flight, StoredResponse, Attempt, Claim, claim_of, Sha256, fingerprint,
  is_abandoned, is_running, resolve, Moment,
}
use fastapi_template.Services.IdempotencyService.Outcomes.{
  HasUniqueKeys, entry_of, get_lem, won_or_raced, claim_lem,
}
use fastapi_template.Services.IdempotencyService.Keys.{
  IsHeld, IsDone, inserted-HasUniqueKeys, inserted-IsHeld, restarted-HasUniqueKeys,
  restarted-IsHeld, complete-IsDone, complete-HasUniqueKeys,
}
use mathlib.Core.Path.{ap₂}
use fastapi_template.Repositories.Idempotency
use fastapi_template.Services.IdempotencyService

-- The claimant holds the key from one of its two times on.
abbrev pub Started : Sha256 → Moment → Attempt → Db → Type 0
Started sha at a db =
    (start : ℕ) × ((start ≡ at.restart_at) ⊎ (start ≡ at.inserted))
    × IsHeld a (fingerprint sha a) start db

module _ (sha : Sha256) (timeout : ℕ) (at : Moment) (a : Attempt) where
  resolve-fresh :
      (e : IdempotencyKey) (db : Db)
      → HasUniqueKeys db
      → entry_of a db ≡ some e
      → (resolve timeout at.checked at.restart_at e (fingerprint sha a) db).0 ≡ ok (claim_of fresh)
      → HasUniqueKeys (resolve timeout at.checked at.restart_at e (fingerprint sha a) db).1
        × Started sha at a (resolve timeout at.checked at.restart_at e (fingerprint sha a) db).1
  unfolding resolve Idempotency.restart
  resolve-fresh e db inv found h =
      elim (Bool-cases (is_running e && is_abandoned timeout at.checked e)) [
        | inl abandoned ↦ rw abandoned (
          restarted-HasUniqueKeys a e db inv found (fingerprint sha a) at.restart_at,
          (
            at.restart_at,
            inl refl,
            restarted-IsHeld a e db inv found (fingerprint sha a) at.restart_at,
          ),
        )
        | inr other ↦ absurd (ground arith)
      ]

  won-fresh :
      (db : Db)
      → HasUniqueKeys db
      → (won_or_raced sha timeout at a (entry_of a db) db).0 ≡ ok (claim_of fresh)
      → HasUniqueKeys (won_or_raced sha timeout at a (entry_of a db) db).1
        × Started sha at a (won_or_raced sha timeout at a (entry_of a db) db).1
  won-fresh db inv h = elim (Option-cases (entry_of a db)) [
    | inl free ↦ rw free (
      inserted-HasUniqueKeys sha at a db inv free,
      (at.inserted, inr refl, inserted-IsHeld sha at a db inv free),
    )
    | inr (raced, e) ↦ rw e (resolve-fresh raced db inv e (rw e at h))
  ]

  pub claim-fresh :
      (db : Db)
      → HasUniqueKeys db
      → HasUniqueKeys (at.meanwhile db)
      → (IdempotencyService.claim sha timeout at a db).0 ≡ ok (claim_of fresh)
      → HasUniqueKeys (IdempotencyService.claim sha timeout at a db).1
        × Started sha at a (IdempotencyService.claim sha timeout at a db).1
  claim-fresh db inv later h =
      rw (claim_lem sha timeout at a db inv later) (elim (Option-cases (entry_of a db)) [
        | inl free ↦ rw free (
            won-fresh (at.meanwhile db) later
              (rw (claim_lem sha timeout at a db inv later, free) at h))
        | inr (existing, e) ↦
            rw e (
              resolve-fresh existing db inv e
                (rw (claim_lem sha timeout at a db inv later, e) at h))
      ])

-- A later attempt for the same key of the same caller.
abbrev pub Retries : Attempt → Attempt → Type 0
Retries a b = (b.user_id ≡ a.user_id) × (b.key ≡ a.key)

entry_of-retry : (a b : Attempt) (db : Db) → Retries a b → entry_of b db ≡ entry_of a db
entry_of-retry a b db (u, k) =
    ap₂ (λ i s. first (select (Idempotency.is_entry i s) db.idempotency_keys.rows)) u k

claim_existing :
    (sha : Sha256) (timeout : ℕ) (at : Moment) (b : Attempt) (e : IdempotencyKey) (db : Db)
    → HasUniqueKeys db
    → entry_of b db ≡ some e
    → IdempotencyService.claim sha timeout at b db
      ≡ resolve timeout at.checked at.restart_at e (fingerprint sha b) db
unfolding IdempotencyService.claim
claim_existing sha timeout at b e db inv found = rw (get_lem b db inv) (rw found refl)

-- What a retry is told while the first attempt runs, or after it is done.
abbrev pub told : Bool → Claim → Claim
told true same = same
told false same = claim_of mismatch

pub claim-held :
    (sha : Sha256) (timeout start : ℕ) (at : Moment) (a b : Attempt) (hash : String) (db : Db)
    → HasUniqueKeys db
    → IsHeld a hash start db
    → Retries a b
    → at.checked ≤ start + timeout
    → IdempotencyService.claim sha timeout at b db
      ≡ (ok (told (str_eq hash (fingerprint sha b)) (claim_of in_flight)), db)
unfolding resolve is_abandoned
claim-held sha timeout start at a b hash db inv held again early =
    rw
      (claim_existing sha timeout at b held.entry db inv (entry_of-retry a b db again ∙ held.found))
      (ground (arith, held.hashed, held.running, held.started))

abbrev pub replay_of : StoredResponse → Claim
replay_of r = record { state = replay; stored = some r }

pub claim-done :
    (sha : Sha256) (timeout : ℕ) (at : Moment) (a b : Attempt) (hash : String) (r : StoredResponse)
    (db : Db)
    → HasUniqueKeys db
    → IsDone a hash r db
    → Retries a b
    → IdempotencyService.claim sha timeout at b db
      ≡ (ok (told (str_eq hash (fingerprint sha b)) (replay_of r)), db)
unfolding resolve
claim-done sha timeout at a b hash r db inv done again =
    rw
      (claim_existing sha timeout at b done.entry db inv (entry_of-retry a b db again ∙ done.found))
      (ground (arith, done.hashed, done.status, done.body, done.content_type, done.ended))

module _ (sha : Sha256) (timeout : ℕ) (at again : Moment) (a b : Attempt) (db : Db)
    (inv : HasUniqueKeys db) (later : HasUniqueKeys (at.meanwhile db))
    (won : (IdempotencyService.claim sha timeout at a db).0 ≡ ok (claim_of fresh))
    (same_key : Retries a b) where
  -- Under the unique constraints, once a claim of a key is fresh, a later attempt of the same
  -- caller for the same key that is checked within the time-out is told that the key is in flight,
  -- or that its request differs where the fingerprints differ, and changes nothing.
  pub claim-exclusive :
      again.checked ≤ at.restart_at + timeout
      → again.checked ≤ at.inserted + timeout
      → IdempotencyService.claim sha timeout again b
          (IdempotencyService.claim sha timeout at a db).1
        ≡ (
          ok (told (str_eq (fingerprint sha a) (fingerprint sha b)) (claim_of in_flight)),
          (IdempotencyService.claim sha timeout at a db).1,
        )
  claim-exclusive early_restart early_insert =
      let (inv', (start, time, held)) = claim-fresh sha timeout at a db inv later won in
      claim-held sha timeout start again a b (fingerprint sha a) _ inv' held same_key (omega arith)

  -- Under the unique constraints, once a fresh claim is completed with a response, a later attempt
  -- of the same caller for the same key gets that response back at any time, or is told that its
  -- request differs where the fingerprints differ, and changes nothing.
  pub claim-complete :
      (r : StoredResponse) (now : ℕ)
      → IdempotencyService.claim sha timeout again b
          (IdempotencyService.complete a.user_id a.key r now
            (IdempotencyService.claim sha timeout at a db).1).1
        ≡ (
          ok (told (str_eq (fingerprint sha a) (fingerprint sha b)) (replay_of r)),
          (IdempotencyService.complete a.user_id a.key r now
              (IdempotencyService.claim sha timeout at a db).1).1,
        )
  claim-complete r now =
      let (inv', (start, time, held)) = claim-fresh sha timeout at a db inv later won in
      claim-done sha timeout again a b (fingerprint sha a) r _
        (complete-HasUniqueKeys a r now _ inv')
        (complete-IsDone a (fingerprint sha a) start r now _ inv' held) same_key
