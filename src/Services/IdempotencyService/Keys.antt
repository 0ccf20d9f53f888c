-- ===== src/Services/IdempotencyService/Keys.antt =====
-- The unique constraint across the writes of app/services/idempotency_service.py, and what a claimed,
-- a completed and a released key look like.
use fastapi_template.Prelude.{
  ℕ, ◌+◌, ◌<◌, String, ◌≡◌, refl, ap, inl, inr, true, false, not, none, some, List, [], ◌∷◌, arith,
  eq_iff, eq_refl, Option-cases, is_some, any, All, All-append, All-map, first, select-append,
  select_none, All-select,
}
use fastapi_template.Errors.{ok}
use fastapi_template.Models.{IdempotencyKey, Db}
use fastapi_template.Services.IdempotencyService.{
  StoredResponse, Attempt, Sha256, fingerprint, is_running, Moment, new_entry,
}
use fastapi_template.Services.IdempotencyService.Outcomes.{
  same_entry, same_id, HasUniqueKeys, entry_of, is_entry_separates, get_lem, inserted,
}
use fastapi_template.Repositories.Unique.{
  is_some-first-select, first-select_holds, Apart-append, Apart-update, All-update, first-update,
  select-delete, Apart-select,
}
use fastapi_template.Repositories.Idempotency.{same_id_as}
use fastapi_template.Repositories.Idempotency
use fastapi_template.Services.IdempotencyService

-- A running entry of this key and fingerprint, started at a time.
pub record IsHeld (a : Attempt) (hash : String) (start : ℕ) (db : Db) : Type 0 where
  pub entry : IdempotencyKey
  pub found : entry_of a db ≡ some entry
  pub hashed : entry.request_hash ≡ hash
  pub running : is_running entry ≡ true
  pub started : entry.created_at ≡ some (record { at = start; aware = true })

-- An entry of this key and fingerprint that keeps a response.
pub record IsDone (a : Attempt) (hash : String) (r : StoredResponse) (db : Db) : Type 0 where
  pub entry : IdempotencyKey
  pub found : entry_of a db ≡ some entry
  pub hashed : entry.request_hash ≡ hash
  pub status : entry.status_code ≡ some r.status_code
  pub body : entry.response_body ≡ some r.body
  pub content_type : entry.content_type ≡ r.content_type
  pub ended : is_some entry.completed_at ≡ true

-- A write that leaves the identity of a row.
abbrev Identifies : (IdempotencyKey → IdempotencyKey) → Type 0
Identifies f =
    (e : IdempotencyKey) → ((f e).id ≡ e.id) × ((f e).user_id ≡ e.user_id) × ((f e).key ≡ e.key)

flush-HasUniqueKeys :
    (entry : IdempotencyKey) (f : IdempotencyKey → IdempotencyKey) (db : Db)
    → Identifies f
    → HasUniqueKeys db
    → HasUniqueKeys (Idempotency.flush_entry entry f db)
flush-HasUniqueKeys entry f db ids inv = record {
  entries =
      Apart-update same_entry (same_id_as entry) f db.idempotency_keys.rows
        (λ r s e. ground (arith, ids r, ids s)) inv.entries;
  ids =
      Apart-update same_id (same_id_as entry) f db.idempotency_keys.rows
        (λ r s e. ground (arith, ids r, ids s)) inv.ids;
  sequence =
      All-update (λ e. e.id < db.idempotency_keys.next_id) (same_id_as entry) f
        db.idempotency_keys.rows (λ r h. ground (arith, ids r)) inv.sequence;
}

entry_of-flush :
    (a : Attempt) (entry : IdempotencyKey) (f : IdempotencyKey → IdempotencyKey) (db : Db)
    → Identifies f
    → HasUniqueKeys db
    → entry_of a db ≡ some entry
    → entry_of a (Idempotency.flush_entry entry f db) ≡ some (f entry)
entry_of-flush a entry f db ids inv e =
    first-update same_id (same_id_as entry) (Idempotency.is_entry a.user_id a.key) f
      db.idempotency_keys.rows entry (λ r s p q. ground arith) inv.ids e (ground arith)
      (ground (
        arith,
        ids entry,
        first-select_holds (Idempotency.is_entry a.user_id a.key) db.idempotency_keys.rows entry e,
      ))

fresh_entry :
    (a : Attempt) (e : IdempotencyKey) (rs : List IdempotencyKey)
    → e.user_id ≡ a.user_id
    → e.key ≡ a.key
    → any (Idempotency.is_entry a.user_id a.key) rs ≡ false
    → All (λ s. same_entry s e ≡ false) rs
fresh_entry a e [] u k h = tt
fresh_entry a e (s ∷ rs) u k h =
    (ground (arith, eq_iff s.key e.key, eq_iff s.key a.key), fresh_entry a e rs u k (ground arith))

fresh_id :
    (n : ℕ) (e : IdempotencyKey) (rs : List IdempotencyKey)
    → e.id ≡ n
    → All (λ s. s.id < n) rs
    → All (λ s. same_id s e ≡ false) rs
fresh_id n e [] i h = tt
fresh_id n e (s ∷ rs) i h = (ground (arith, h.0), fresh_id n e rs i h.1)

module _ (sha : Sha256) (at : Moment) (a : Attempt) (db : Db) (inv : HasUniqueKeys db)
    (free : entry_of a db ≡ none) where
  none_there : any (Idempotency.is_entry a.user_id a.key) db.idempotency_keys.rows ≡ false
  none_there =
      ground (
        arith,
        is_some-first-select (Idempotency.is_entry a.user_id a.key) db.idempotency_keys.rows,
      )

  abbrev mine : IdempotencyKey
  mine = new_entry a (fingerprint sha a) at.inserted db.idempotency_keys.next_id

  pub inserted-HasUniqueKeys : HasUniqueKeys (inserted sha at a db)
  inserted-HasUniqueKeys = record {
    entries =
        Apart-append same_entry db.idempotency_keys.rows mine inv.entries
          (fresh_entry a mine db.idempotency_keys.rows refl refl none_there);
    ids =
        Apart-append same_id db.idempotency_keys.rows mine inv.ids
          (fresh_id db.idempotency_keys.next_id mine db.idempotency_keys.rows refl inv.sequence);
    sequence =
        All-append (λ e. e.id < db.idempotency_keys.next_id + 1) db.idempotency_keys.rows
          (mine ∷ []) (All-map (λ e h. omega arith) db.idempotency_keys.rows inv.sequence)
          (omega arith, tt);
  }

  pub inserted-IsHeld : IsHeld a (fingerprint sha a) at.inserted (inserted sha at a db)
  inserted-IsHeld = record {
    entry = mine;
    found =
        rw
          (
            select-append (Idempotency.is_entry a.user_id a.key) db.idempotency_keys.rows
                (mine ∷ []),
            select_none (Idempotency.is_entry a.user_id a.key) db.idempotency_keys.rows none_there,
          )
          (ground (arith, eq_refl a.key));
    hashed = refl;
    running = refl;
    started = refl;
  }

module _ (a : Attempt) (entry : IdempotencyKey) (db : Db) (inv : HasUniqueKeys db)
    (e : entry_of a db ≡ some entry) where
  pub restarted-HasUniqueKeys :
      (hash : String) (now : ℕ)
      → HasUniqueKeys (Idempotency.flush_entry entry (Idempotency.restarted hash now) db)
  restarted-HasUniqueKeys hash now = flush-HasUniqueKeys entry _ db (λ r. (refl, refl, refl)) inv

  pub restarted-IsHeld :
      (hash : String) (now : ℕ)
      → IsHeld a hash now (Idempotency.flush_entry entry (Idempotency.restarted hash now) db)
  restarted-IsHeld hash now = record {
    entry = Idempotency.restarted hash now entry;
    found =
        entry_of-flush a entry (Idempotency.restarted hash now) db (λ r. (refl, refl, refl)) inv e;
    hashed = refl;
    running = refl;
    started = refl;
  }

-- `complete` on a held key keeps the response, and the fingerprint of its claim.
pub complete-IsDone :
    (a : Attempt) (hash : String) (start : ℕ) (r : StoredResponse) (now : ℕ) (db : Db)
    → HasUniqueKeys db
    → IsHeld a hash start db
    → IsDone a hash r (IdempotencyService.complete a.user_id a.key r now db).1
unfolding IdempotencyService.complete Idempotency.complete
complete-IsDone a hash start r now db inv held = rw (get_lem a db inv) (
    rw held.found (record {
      entry = Idempotency.completed r.status_code r.body r.content_type now held.entry;
      found =
          entry_of-flush a held.entry
            (Idempotency.completed r.status_code r.body r.content_type now) db
            (λ q. (refl, refl, refl)) inv held.found;
      hashed = held.hashed;
      status = refl;
      body = refl;
      content_type = refl;
      ended = refl;
    }))

pub complete-HasUniqueKeys :
    (a : Attempt) (r : StoredResponse) (now : ℕ) (db : Db)
    → HasUniqueKeys db
    → HasUniqueKeys (IdempotencyService.complete a.user_id a.key r now db).1
unfolding IdempotencyService.complete Idempotency.complete
complete-HasUniqueKeys a r now db inv = rw (get_lem a db inv) (elim (Option-cases (entry_of a db)) [
  | inl gone ↦ rw gone inv
  | inr (entry, e) ↦ rw e (flush-HasUniqueKeys entry _ db (λ q. (refl, refl, refl)) inv)
])

pub release-frees :
    (a : Attempt) (db : Db)
    → HasUniqueKeys db
    → entry_of a (IdempotencyService.release a.user_id a.key db).1 ≡ none
unfolding IdempotencyService.release Idempotency.release
release-frees a db inv = rw (get_lem a db inv) (elim (Option-cases (entry_of a db)) [
  | inl gone ↦ rw gone gone
  | inr (entry, e) ↦ rw e (
      ap first (
        select-delete same_entry (same_id_as entry) (Idempotency.is_entry a.user_id a.key)
          db.idempotency_keys.rows entry (is_entry_separates a.user_id a.key) inv.entries e
          (ground arith)))
])

pub release-HasUniqueKeys :
    (a : Attempt) (db : Db)
    → HasUniqueKeys db
    → HasUniqueKeys (IdempotencyService.release a.user_id a.key db).1
unfolding IdempotencyService.release Idempotency.release
release-HasUniqueKeys a db inv = rw (get_lem a db inv) (elim (Option-cases (entry_of a db)) [
  | inl gone ↦ rw gone inv
  | inr (entry, e) ↦ rw e (record {
    entries =
        Apart-select same_entry (λ r. not (same_id_as entry r)) db.idempotency_keys.rows
          inv.entries;
    ids = Apart-select same_id (λ r. not (same_id_as entry r)) db.idempotency_keys.rows inv.ids;
    sequence =
        All-select (λ r. r.id < db.idempotency_keys.next_id) (λ r. not (same_id_as entry r))
          db.idempotency_keys.rows inv.sequence;
  })
])

pub complete-returns :
    (a : Attempt) (r : StoredResponse) (now : ℕ) (db : Db)
    → HasUniqueKeys db
    → (IdempotencyService.complete a.user_id a.key r now db).0 ≡ ok tt
unfolding IdempotencyService.complete Idempotency.complete
complete-returns a r now db inv =
    rw (get_lem a db inv)
      (elim (Option-cases (entry_of a db)) [ inl gone ↦ rw gone refl | inr (entry, e) ↦ rw e refl ])
