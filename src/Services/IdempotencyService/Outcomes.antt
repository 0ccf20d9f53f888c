-- ===== src/Services/IdempotencyService/Outcomes.antt =====
-- What the calls of app/services/idempotency_service.py answer, on a table that meets its unique
-- constraint.
use fastapi_template.Prelude.{
  ℕ, ◌<◌, String, ◌≡◌, refl, inl, inr, Bool, ◌&&◌, Option, none, some, arith, str_eq, eq_iff, ◌==◌,
  Option-cases, All, select, first,
}
use fastapi_template.Errors.{Result, ok}
use fastapi_template.Models.{IdempotencyKey, insert_row, Db}
use fastapi_template.Services.IdempotencyService.{
  fresh, Attempt, Claim, claim_of, Sha256, fingerprint, resolve, Moment, new_entry,
}
use fastapi_template.Repositories.Unique.{
  Apart, Separates, one_or_none-select, is_some-first-select,
}
use fastapi_template.Repositories.Idempotency
use fastapi_template.Services.IdempotencyService

abbrev pub same_entry : IdempotencyKey → IdempotencyKey → Bool
same_entry e f = e.user_id == f.user_id && str_eq e.key f.key

abbrev pub same_id : IdempotencyKey → IdempotencyKey → Bool
same_id e f = e.id == f.id

pub record HasUniqueKeys (db : Db) : Type 0 where
  pub entries : Apart same_entry db.idempotency_keys.rows
  pub ids : Apart same_id db.idempotency_keys.rows
  pub sequence : All (λ e. e.id < db.idempotency_keys.next_id) db.idempotency_keys.rows

abbrev pub entry_of : Attempt → Db → Option IdempotencyKey
entry_of a db = first (select (Idempotency.is_entry a.user_id a.key) db.idempotency_keys.rows)

pub is_entry_separates : (i : ℕ) (k : String) → Separates same_entry (Idempotency.is_entry i k)
is_entry_separates i k e f he hf =
    ground (arith, eq_iff e.key k, eq_iff f.key k, eq_iff e.key f.key)

pub get_lem :
    (a : Attempt) (db : Db)
    → HasUniqueKeys db
    → Idempotency.get a.user_id a.key db ≡ (ok (entry_of a db), db)
unfolding Idempotency.get
get_lem a db inv = rw (
    one_or_none-select same_entry (Idempotency.is_entry a.user_id a.key) db.idempotency_keys.rows
      (is_entry_separates a.user_id a.key) inv.entries)

-- The INSERT of a claim that wins.
abbrev pub inserted : Sha256 → Moment → Attempt → Db → Db
inserted sha at a db =
    Idempotency.with_keys db
      (insert_row (new_entry a (fingerprint sha a) at.inserted) db.idempotency_keys)

module _ (sha : Sha256) (timeout : ℕ) (at : Moment) (a : Attempt) where
  -- The write of a claim, on what other transactions have left.
  abbrev pub won_or_raced : Option IdempotencyKey → Db → Result Claim × Db
  won_or_raced none db = (ok (claim_of fresh), inserted sha at a db)
  won_or_raced (some raced) db =
      resolve timeout at.checked at.restart_at raced (fingerprint sha a) db

  abbrev pub claim_answer : Option IdempotencyKey → Db → Result Claim × Db
  claim_answer none db = won_or_raced (entry_of a (at.meanwhile db)) (at.meanwhile db)
  claim_answer (some existing) db =
      resolve timeout at.checked at.restart_at existing (fingerprint sha a) db

  insert_wins :
      (db : Db)
      → entry_of a db ≡ none
      → Idempotency.claim (new_entry a (fingerprint sha a) at.inserted) db ≡ (
        ok (some (new_entry a (fingerprint sha a) at.inserted db.idempotency_keys.next_id)),
        inserted sha at a db,
      )
  unfolding Idempotency.claim
  insert_wins db h =
      ground (
        arith,
        is_some-first-select (Idempotency.is_entry a.user_id a.key) db.idempotency_keys.rows,
      )

  insert_loses :
      (db : Db) (raced : IdempotencyKey)
      → entry_of a db ≡ some raced
      → Idempotency.claim (new_entry a (fingerprint sha a) at.inserted) db ≡ (ok none, db)
  unfolding Idempotency.claim
  insert_loses db raced h =
      ground (
        arith,
        is_some-first-select (Idempotency.is_entry a.user_id a.key) db.idempotency_keys.rows,
      )

  -- Whatever other transactions commit between the look at the key and the insert, as long as the
  -- unique constraints hold before and after, a claim is decided by the entry that is there at the
  -- look, else by the one that is there at the insert, and is else the insert of a new entry.
  pub claim_lem :
      (db : Db)
      → HasUniqueKeys db
      → HasUniqueKeys (at.meanwhile db)
      → IdempotencyService.claim sha timeout at a db ≡ claim_answer (entry_of a db) db
  unfolding IdempotencyService.claim
  claim_lem db inv later = rw (get_lem a db inv) (elim (Option-cases (entry_of a db)) [
    | inr (existing, e) ↦ rw e refl
    | inl free ↦ rw free (elim (Option-cases (entry_of a (at.meanwhile db))) [
      | inl still ↦ rw (insert_wins (at.meanwhile db) still, still) refl
      | inr (raced, e) ↦
          rw (insert_loses (at.meanwhile db) raced e, get_lem a (at.meanwhile db) later, e) refl
    ])
  ])
