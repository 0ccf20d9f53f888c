-- ===== src/Services/IdempotencyService.antt =====
-- app/services/idempotency_service.py, app/schemas/idempotency.py, app/api/idempotency_store.py.
-- `digest` is hashlib's sha256 over the bytes that are fed to it, and `encode` is str.encode.
pub mod Outcomes
pub mod Tests
pub mod Replay
pub mod Keys
use fastapi_template.Prelude.{
  ℕ, ◌+◌, ◌-◌, String, Bool, true, false, not, ◌&&◌, ◌||◌, Option, none, some, ◌∷◌, ◌++◌, str_eq,
  ltb, if◌then◌else◌, is_some, Bytes,
}
use fastapi_template.Errors.{status_code, ok}
use fastapi_template.Models.{IdempotencyKey, Db}
use fastapi_template.Exec.{Exec, pure, ◌>>=◌, ◌>>◌}
use fastapi_template.Repositories.Idempotency

pub data ClaimState : Type 0 where
  fresh replay mismatch in_flight : ClaimState

pub record StoredResponse : Type 0 where
  pub status_code : ℕ
  pub body : String
  pub content_type : Option String

pub record Attempt : Type 0 where
  pub user_id : ℕ
  pub key : String
  pub method : String
  pub path : String
  pub body : Bytes

pub record Claim : Type 0 where
  pub state : ClaimState
  pub stored : Option StoredResponse

abbrev pub claim_of : ClaimState → Claim
claim_of state = record { state = state; stored = none }

pub record Sha256 : Type 0 where
  pub encode : String → Bytes
  pub digest : Bytes → String

-- What is fed to the digest.
abbrev pub digested : Sha256 → Attempt → Bytes
digested sha attempt = sha.encode attempt.method ++ 0 ∷ sha.encode attempt.path ++ 0 ∷ attempt.body

unfoldable pub fingerprint : Sha256 → Attempt → String
fingerprint sha attempt = sha.digest (digested sha attempt)

-- `_abandoned` at the time `now`, the time-out in microseconds. A naive stamp is read as UTC.
unfoldable pub is_abandoned : ℕ → ℕ → IdempotencyKey → Bool
is_abandoned timeout now entry = elim entry.created_at [
  | none ↦ false
  | some started ↦ ltb (started.at + timeout) now
]

abbrev pub is_running : IdempotencyKey → Bool
is_running entry = not (is_some entry.completed_at) || not (is_some entry.status_code)

abbrev pub or_empty : Option String → String
or_empty none = ""
or_empty (some s) = s

-- The last statement of `_resolve`, where the status is known.
abbrev pub replayed : IdempotencyKey → Option ℕ → Claim
replayed entry none = claim_of in_flight
replayed entry (some status) = record {
  state = replay;
  stored = some (record {
    status_code = status;
    body = or_empty entry.response_body;
    content_type = entry.content_type;
  });
}

-- `_resolve`; `checked` and `restart_at` are its two readings of the clock.
unfoldable pub resolve : ℕ → ℕ → ℕ → IdempotencyKey → String → Exec Db Claim
resolve timeout checked restart_at entry request_hash =
    if is_running entry && is_abandoned timeout checked entry
    then (do Idempotency.restart entry request_hash restart_at; pure (claim_of fresh))
    else if not (str_eq entry.request_hash request_hash)
    then pure (claim_of mismatch)
    else if is_running entry
    then pure (claim_of in_flight)
    else pure (replayed entry entry.status_code)

-- The clock readings of a call, and what other transactions commit between its query and its write.
pub record Moment : Type 0 where
  pub checked : ℕ
  pub restart_at : ℕ
  pub inserted : ℕ
  pub meanwhile : Db → Db

abbrev pub new_entry : Attempt → String → ℕ → ℕ → IdempotencyKey
new_entry attempt request_hash now id = record {
  id = id;
  created_at = some (record { at = now; aware = true });
  key = attempt.key;
  user_id = attempt.user_id;
  method = attempt.method;
  path = attempt.path;
  request_hash = request_hash;
  status_code = none;
  response_body = none;
  content_type = none;
  completed_at = none;
}

abbrev pub others_commit : (Db → Db) → Exec Db (Unit {0})
others_commit meanwhile db = (ok tt, meanwhile db)

-- After the INSERT was refused.
abbrev pub raced_claim : ℕ → Moment → String → Option IdempotencyKey → Exec Db Claim
raced_claim timeout at request_hash none = pure (claim_of in_flight)
raced_claim timeout at request_hash (some raced) =
    resolve timeout at.checked at.restart_at raced request_hash

abbrev pub claimed : ℕ → Moment → Attempt → String → Option IdempotencyKey → Exec Db Claim
claimed timeout at attempt request_hash (some entry) = pure (claim_of fresh)
claimed timeout at attempt request_hash none = do
  raced ← Idempotency.get attempt.user_id attempt.key
  raced_claim timeout at request_hash raced

abbrev pub claim_from : ℕ → Moment → Attempt → String → Option IdempotencyKey → Exec Db Claim
claim_from timeout at attempt request_hash (some existing) =
    resolve timeout at.checked at.restart_at existing request_hash
claim_from timeout at attempt request_hash none = do
  others_commit at.meanwhile
  won ← Idempotency.claim (new_entry attempt request_hash at.inserted)
  claimed timeout at attempt request_hash won

unfoldable pub claim : Sha256 → ℕ → Moment → Attempt → Exec Db Claim
claim sha timeout at attempt = do
  existing ← Idempotency.get attempt.user_id attempt.key
  claim_from timeout at attempt (fingerprint sha attempt) existing

abbrev pub complete_entry : Option IdempotencyKey → StoredResponse → ℕ → Exec Db (Unit {0})
complete_entry none response now = pure tt
complete_entry (some entry) response now =
    Idempotency.complete entry response.status_code response.body response.content_type now

unfoldable pub complete : ℕ → String → StoredResponse → ℕ → Exec Db (Unit {0})
complete user_id key response now = do
  entry ← Idempotency.get user_id key
  complete_entry entry response now

abbrev pub release_entry : Option IdempotencyKey → Exec Db (Unit {0})
release_entry none = pure tt
release_entry (some entry) = Idempotency.release entry

unfoldable pub release : ℕ → String → Exec Db (Unit {0})
release user_id key = do entry ← Idempotency.get user_id key; release_entry entry

-- `prune_batch`; `retention` is not longer than the time since the epoch.
unfoldable pub prune_batch : ℕ → ℕ → ℕ → Exec Db ℕ
prune_batch now retention batch_size =
    Idempotency.delete_batch_created_before (now - retention) batch_size
