-- ===== src/Http/Replay.antt =====
-- End to end: the idempotency middleware over its database store.
use fastapi_template.Prelude.{
  ℕ, ◌<◌, String, ◌≡◌, refl, sym, ap, ◌∙◌, inl, inr, Bool, true, false, some, List, [], ◌∷◌, ◌++◌,
  map, append_assoc, append-nil, arith, str_eq, if◌then◌else◌, Bool-cases, All, first, Bytes,
}
use fastapi_template.Errors.{idempotency_body_mismatch, Result, ok}
use fastapi_template.Models.{IdempotencyKey, Table, Db}
use fastapi_template.Exec.{Exec, get_session_among, get_session}
use fastapi_template.Http.BodyLimit.{joined}
use fastapi_template.Http.Errors.{sentence, Headers, correlation_id, with_id, error_response}
use fastapi_template.Http.Idempotency.{
  refuse, Captured, capture_from, capture, is_storable, attempt_of, send_again, idempotency,
}
use fastapi_template.Http.Asgi.{
  Message, response_start, response_body, Answer, sends, Request, App, header_ci,
}
use fastapi_template.Services.IdempotencyService.{
  fresh, StoredResponse, Attempt, Claim, claim_of, fingerprint,
}
use fastapi_template.Http.IdempotencyStore.{
  Deployment, Occasion, store_claim, store_complete, wiring,
}
use fastapi_template.Services.IdempotencyService.Outcomes.{
  same_entry, same_id, HasUniqueKeys, entry_of,
}
use fastapi_template.Services.IdempotencyService.Keys.{
  IsHeld, IsDone, complete-IsDone, complete-HasUniqueKeys, complete-returns,
}
use fastapi_template.Services.IdempotencyService.Replay.{Started, claim-fresh, Retries, claim-done}
use fastapi_template.Http.Idempotency.Once.{Reaches, idempotency-claims}
use fastapi_template.Repositories.Unique.{Apart}
use mathlib.Core.Path.{subst}
use fastapi_template.Services.IdempotencyService

-- An application that leaves the table of keys alone.
abbrev pub LeavesKeys : App Db → Type 0
LeavesKeys app = (req : Request) (db : Db) → (app req db).1.idempotency_keys ≡ db.idempotency_keys

HasUniqueKeys-same :
    (db db' : Db)
    → db'.idempotency_keys ≡ db.idempotency_keys
    → HasUniqueKeys db
    → HasUniqueKeys db'
HasUniqueKeys-same db db' e inv = record {
  entries = subst (λ (t : Table IdempotencyKey). Apart same_entry t.rows) (sym e) inv.entries;
  ids = subst (λ (t : Table IdempotencyKey). Apart same_id t.rows) (sym e) inv.ids;
  sequence =
      subst (λ (t : Table IdempotencyKey). All (λ k. k.id < t.next_id) t.rows) (sym e) inv.sequence;
}

IsHeld-same :
    (a : Attempt) (hash : String) (start : ℕ) (db db' : Db)
    → db'.idempotency_keys ≡ db.idempotency_keys
    → IsHeld a hash start db
    → IsHeld a hash start db'
IsHeld-same a hash start db db' e h = record {
  entry = h.entry;
  found =
      subst
        (λ (t : Table IdempotencyKey).
          entry_of a (record db { idempotency_keys = t }) ≡ some h.entry)
        (sym e) h.found;
  hashed = h.hashed;
  running = h.running;
  started = h.started;
}

session-ok :
    {A : Type 0} (m : Exec Db A) (db : Db) (a : A) → (m db).0 ≡ ok a → get_session m db ≡ m db
unfolding get_session
session-ok m db a h = ground arith

among-ok :
    {A : Type 0} (meanwhile : Db → Db) (m : Exec Db A) (db : Db) (a : A)
    → (m db).0 ≡ ok a
    → get_session_among meanwhile m db ≡ m db
unfolding get_session_among
among-ok meanwhile m db a h = ground arith

-- One request of a deployment that reaches the claim, and the body that it carries.
pub record Arrives (d : Deployment) (caller : ℕ) (key : String) : Type 0 where
  pub occasion : Occasion
  pub request : Request
  pub body : Bytes
  pub reaches : Reaches (wiring d occasion) request caller key body

abbrev pub attempt : (d : Deployment) (caller : ℕ) (key : String) → Arrives d caller key → Attempt
attempt d caller key r = attempt_of caller key r.request r.body

-- The database after the claim, and after the application.
module _ (d : Deployment) (caller : ℕ) (key : String) (r : Arrives d caller key) (app : App Db)
    (db : Db) where
  abbrev pub claimed_db : Db
  claimed_db =
      (IdempotencyService.claim d.sha d.timeout r.occasion.claims_at (attempt d caller key r) db).1

  abbrev pub answered : Answer × Db
  answered = app (record r.request { body = ok r.body }) claimed_db

  abbrev pub kept_response : String → StoredResponse
  kept_response content = record {
    status_code = (capture answered.0.sent).status_code;
    body = content;
    content_type = (capture answered.0.sent).content_type;
  }

  abbrev pub stored_db : String → Db
  stored_db content =
      (IdempotencyService.complete caller key (kept_response content) r.occasion.completes_at
        answered.1).1

  module _ (inv : HasUniqueKeys db) (raced : HasUniqueKeys (r.occasion.claims_at.meanwhile db))
      (won : (IdempotencyService.claim d.sha d.timeout r.occasion.claims_at
          (attempt d caller key r)
          db).0
        ≡ ok (claim_of fresh))
      (leaves : LeavesKeys app) where
    fresh_claim :
        HasUniqueKeys claimed_db
        × Started d.sha r.occasion.claims_at (attempt d caller key r) claimed_db
    fresh_claim =
        claim-fresh d.sha d.timeout r.occasion.claims_at (attempt d caller key r) db inv raced won

    answered-HasUniqueKeys : HasUniqueKeys answered.1
    answered-HasUniqueKeys =
        HasUniqueKeys-same claimed_db answered.1
          (leaves (record r.request { body = ok r.body }) claimed_db) fresh_claim.0

    stored-IsDone :
        (content : String)
        → IsDone
            (attempt d caller key r)
            (fingerprint d.sha (attempt d caller key r))
            (kept_response content)
            (stored_db content)
    stored-IsDone content =
        let (start, time, held) = fresh_claim.1 in
        complete-IsDone (attempt d caller key r) (fingerprint d.sha (attempt d caller key r)) start
          (kept_response content) r.occasion.completes_at answered.1 answered-HasUniqueKeys
          (IsHeld-same (attempt d caller key r) _ start claimed_db answered.1
            (leaves (record r.request { body = ok r.body }) claimed_db) held)

    first_run :
        (content : String)
        → answered.0.outcome ≡ ok tt
        → is_storable (capture answered.0.sent) ≡ true
        → d.decode (capture answered.0.sent).body ≡ ok content
        → idempotency (wiring d r.occasion) app r.request db ≡ (answered.0, stored_db content)
    unfolding store_claim store_complete
    first_run content ran storable decoded =
        rw (idempotency-claims (wiring d r.occasion) app r.request caller key r.body r.reaches db) (
          ground (
            arith,
            among-ok r.occasion.claims_at.meanwhile
                (IdempotencyService.claim d.sha d.timeout r.occasion.claims_at
                  (attempt d caller key r))
                db (claim_of fresh) won,
            won,
            ran,
            storable,
            decoded,
            session-ok
                (IdempotencyService.complete caller key (kept_response content)
                  r.occasion.completes_at)
                answered.1 tt
                (complete-returns (attempt d caller key r) (kept_response content)
                  r.occasion.completes_at answered.1 answered-HasUniqueKeys),
          ))

-- What the second request is told.
abbrev pub replay_answer : (d : Deployment) → Occasion → Bool → StoredResponse → Answer
replay_answer d o true stored = send_again (wiring d o) stored
replay_answer d o false stored =
    refuse (wiring d o) 409 "This Idempotency-Key was already used with a different request"
      idempotency_body_mismatch

second_run :
    (d : Deployment) (caller : ℕ) (key : String) (r : Arrives d caller key) (other : App Db)
    (first_attempt : Attempt) (stored : StoredResponse) (db : Db)
    → HasUniqueKeys db
    → IsDone first_attempt (fingerprint d.sha first_attempt) stored db
    → Retries first_attempt (attempt d caller key r)
    → idempotency (wiring d r.occasion) other r.request db ≡ (
      replay_answer d r.occasion
          (str_eq (fingerprint d.sha first_attempt) (fingerprint d.sha (attempt d caller key r)))
          stored,
      db,
    )
unfolding store_claim
second_run d caller key r other first_attempt stored db inv done again =
    let told_it =
      claim-done d.sha d.timeout r.occasion.claims_at first_attempt (attempt d caller key r)
        (fingerprint d.sha first_attempt) stored db inv done again in
    rw (idempotency-claims (wiring d r.occasion) other r.request caller key r.body r.reaches db) (
      rw
        (
          among-ok r.occasion.claims_at.meanwhile
              (IdempotencyService.claim d.sha d.timeout r.occasion.claims_at
                (attempt d caller key r))
              db _ (ap (λ (p : Result Claim × Db). p.0) told_it),
          told_it,
        )
        (elim (Bool-cases
          (str_eq (fingerprint d.sha first_attempt) (fingerprint d.sha (attempt d caller key r)))) [
            | inl same ↦ rw same refl
            | inr differs ↦ rw differs refl
          ]))

-- A request is answered by its application, and the next one is told what was captured.
idempotency-captured :
    (d : Deployment) (caller : ℕ) (key : String) (r again : Arrives d caller key)
    (app other : App Db) (content : String) (db : Db)
    → HasUniqueKeys db
    → HasUniqueKeys (r.occasion.claims_at.meanwhile db)
    → (IdempotencyService.claim d.sha d.timeout r.occasion.claims_at (attempt d caller key r) db).0
      ≡ ok (claim_of fresh)
    → LeavesKeys app
    → (answered d caller key r app db).0.outcome ≡ ok tt
    → is_storable (capture (answered d caller key r app db).0.sent) ≡ true
    → d.decode (capture (answered d caller key r app db).0.sent).body ≡ ok content
    → ((idempotency (wiring d r.occasion) app r.request db).0 ≡ (answered d caller key r app db).0)
      × (idempotency
            (wiring d again.occasion)
            other
            again.request
            (idempotency (wiring d r.occasion) app r.request db).1
          ≡ (
            replay_answer d again.occasion
                (str_eq
                  (fingerprint d.sha (attempt d caller key r))
                  (fingerprint d.sha (attempt d caller key again)))
                (kept_response d caller key r app db content),
            (idempotency (wiring d r.occasion) app r.request db).1,
          ))
idempotency-captured d caller key r again app other content db inv raced won leaves ran storable
      decoded =
    rw (first_run d caller key r app db inv raced won leaves content ran storable decoded) (
      refl,
      second_run d caller key again other (attempt d caller key r)
          (kept_response d caller key r app db content) (stored_db d caller key r app db content)
          (complete-HasUniqueKeys (attempt d caller key r)
            (kept_response d caller key r app db content) r.occasion.completes_at
            (answered d caller key r app db).1
            (answered-HasUniqueKeys d caller key r app db inv raced won leaves))
          (stored-IsDone d caller key r app db inv raced won leaves content) (refl, refl),
    )

-- What the client gets that repeats its request, from the answer's status, content type and body.
abbrev pub repeated : (d : Deployment) → ℕ → Headers → Bytes → Answer
repeated d status headers body = sends (
    d.rendering.respond status body (header_ci "content-type" headers)
      (("Idempotent-Replay", "true") ∷ []))

-- What it gets where it sends another request under the key.
abbrev pub clash_answer : (d : Deployment) → Occasion → Answer
clash_answer d o = sends (
    d.rendering.respond_json (record {
      status = 409;
      detail = sentence "This Idempotency-Key was already used with a different request";
      message = "This Idempotency-Key was already used with a different request";
      code = idempotency_body_mismatch;
      params = [];
      request_id = correlation_id o.correlation;
      headers = with_id (correlation_id o.correlation) [];
    }))

-- The messages of an answer that is sent in pieces
abbrev pub in_pieces : ℕ → Headers → List Bytes → List Message
in_pieces status headers chunks = response_start status headers ∷ map response_body chunks

captured_pieces :
    (c : Captured) (chunks : List Bytes)
    → capture_from c (map response_body chunks) ≡ record c { body = c.body ++ joined chunks }
unfolding capture_from
captured_pieces c [] = ap (λ b. record c { body = b }) (sym (append-nil c.body))
captured_pieces c (chunk ∷ chunks) =
    captured_pieces (record c { body = c.body ++ chunk }) chunks
    ∙ ap (λ b. record c { body = b }) (append_assoc c.body chunk (joined chunks))

abbrev pub whole : ℕ → Headers → List Bytes → Captured
whole status headers chunks = record {
  status_code = status;
  content_type = header_ci "content-type" headers;
  body = joined chunks;
}

capture-in_pieces :
    (status : ℕ) (headers : Headers) (chunks : List Bytes)
    → capture (in_pieces status headers chunks) ≡ whole status headers chunks
unfolding capture capture_from
capture-in_pieces status headers chunks =
    captured_pieces
      (record { status_code = status; content_type = header_ci "content-type" headers; body = [] })
      chunks

told :
    (d : Deployment) (o : Occasion) (same : Bool) (status : ℕ) (headers : Headers)
    (chunks : List Bytes) (content : String)
    → d.sha.encode content ≡ joined chunks
    → replay_answer d o same (record {
      status_code = status;
      body = content;
      content_type = header_ci "content-type" headers;
    })
      ≡ (if same then repeated d status headers (joined chunks) else clash_answer d o)
unfolding error_response
told d o true status headers chunks content e = rw e refl
told d o false status headers chunks content e = refl

-- Under the unique constraints, for an application that leaves the idempotency table alone, and
-- where the text that its body decodes to encodes to that body: the first request with a key that
-- claims it, and whose answer in pieces can be stored, is answered by the application. A second
-- request of the same caller with the same key gets the same status and content type, and all the
-- pieces of the body as one, and of the other headers only a mark of the replay. Where its method,
-- path and body have another fingerprint it is refused with 409. Its own application makes no
-- difference, and the database stays as it is.
pub idempotency-replays :
    (d : Deployment) (caller : ℕ) (key : String) (r again : Arrives d caller key)
    (app other : App Db) (status : ℕ) (headers : Headers) (chunks : List Bytes) (content : String)
    (db : Db)
    → HasUniqueKeys db
    → HasUniqueKeys (r.occasion.claims_at.meanwhile db)
    → (IdempotencyService.claim d.sha d.timeout r.occasion.claims_at (attempt d caller key r) db).0
      ≡ ok (claim_of fresh)
    → LeavesKeys app
    → (answered d caller key r app db).0 ≡ sends (in_pieces status headers chunks)
    → is_storable (whole status headers chunks) ≡ true
    → d.decode (joined chunks) ≡ ok content
    → d.sha.encode content ≡ joined chunks
    → ((idempotency (wiring d r.occasion) app r.request db).0
        ≡ sends (in_pieces status headers chunks))
      × (idempotency
            (wiring d again.occasion)
            other
            again.request
            (idempotency (wiring d r.occasion) app r.request db).1
          ≡ (
            if str_eq
                  (fingerprint d.sha (attempt d caller key r))
                  (fingerprint d.sha (attempt d caller key again))
                then repeated d status headers (joined chunks)
                else clash_answer d again.occasion,
            (idempotency (wiring d r.occasion) app r.request db).1,
          ))
idempotency-replays d caller key r again app other status headers chunks content db inv raced won
      leaves sent storable decoded encoded =
    let caught : capture (answered d caller key r app db).0.sent ≡ whole status headers chunks =
      rw sent (capture-in_pieces status headers chunks) in
    let (first, second) =
      idempotency-captured d caller key r again app other content db inv raced won leaves
        (ap (λ a. a.outcome) sent) (rw caught storable) (rw caught decoded) in
    (
      first ∙ sent,
      second
          ∙ ap (λ a. (a, (idempotency (wiring d r.occasion) app r.request db).1))
              (ap
                  (λ (c : Captured).
                    replay_answer d again.occasion
                      (str_eq (fingerprint d.sha (attempt d caller key r))
                        (fingerprint d.sha (attempt d caller key again)))
                      (record {
                        status_code = c.status_code;
                        body = content;
                        content_type = c.content_type;
                      }))
                  caught
                ∙ told d again.occasion
                    (str_eq (fingerprint d.sha (attempt d caller key r))
                      (fingerprint d.sha (attempt d caller key again)))
                    status headers chunks content encoded),
    )
