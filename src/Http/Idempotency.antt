-- ===== src/Http/Idempotency.antt =====
-- app/core/http/idempotency.py. The parameters are the IdempotencyStore and the CallerResolver that the
-- middleware is built with, Starlette's rendering, the correlation id and `bytes.decode`.
pub mod Once
use fastapi_template.Prelude.{
  ℕ, ◌*◌, String, Bool, true, false, not, ◌&&◌, ◌||◌, Option, none, some, List, [], ◌∷◌, ◌++◌,
  str_eq, starts_with, ltb, leb, if◌then◌else◌, length, any, Bytes, codes,
}
use fastapi_template.Errors.{
  ErrorCode, payload_too_large, idempotency_invalid_key, idempotency_body_mismatch,
  idempotency_in_flight, payload_too_large_error, status_code, Exception, domain, Result, ok, err,
}
use fastapi_template.Exec.{Exec}
use fastapi_template.Http.Errors.{sentence, Correlation, error_response}
use fastapi_template.Http.Asgi.{
  Message, response_start, response_body, Answer, sends, Request, App, Rendering, header_ci,
}
use fastapi_template.Services.IdempotencyService.{
  ClaimState, fresh, replay, mismatch, in_flight, StoredResponse, Attempt, Claim, or_empty, claim,
  complete, release,
}

abbrev pub max_key_length : ℕ
max_key_length = 255

abbrev pub max_stored_body_bytes : ℕ
max_stored_body_bytes = 64 * 1024

unfoldable pub is_idempotent_method : String → Bool
is_idempotent_method m = str_eq m "POST" || str_eq m "PATCH" || str_eq m "PUT" || str_eq m "DELETE"

-- PRINTABLE: string.printable without string.whitespace
abbrev pub is_printable : ℕ → Bool
is_printable c = leb 33 c && leb c 126

unfoldable pub is_valid_key : String → Bool
is_valid_key key =
    ltb 0 (length (codes key))
    && leb (length (codes key)) max_key_length
    && not (any (λ c. not (is_printable c)) (codes key))

-- _CapturedResponse
pub record Captured : Type 0 where
  pub status_code : ℕ
  pub content_type : Option String
  pub body : Bytes

abbrev pub nothing_captured : Captured
nothing_captured = record { status_code = 500; content_type = none; body = [] }

abbrev pub capture_message : Captured → Message → Captured
capture_message c (response_start status headers) = record {
  status_code = status;
  content_type = header_ci "content-type" headers;
  body = c.body;
}
capture_message c (response_body chunk) = record c { body = c.body ++ chunk }

unfoldable pub capture_from : Captured → List Message → Captured
capture_from c [] = c
capture_from c (m ∷ ms) = capture_from (capture_message c m) ms

unfoldable pub capture : List Message → Captured
unfolding capture_from
capture messages = capture_from nothing_captured messages

abbrev pub is_empty : Bytes → Bool
is_empty [] = true
is_empty (b ∷ bs) = false

-- `_storable`
unfoldable pub is_storable : Captured → Bool
is_storable c =
    if not (leb 200 c.status_code && ltb c.status_code 300)
    then false
    else if ltb max_stored_body_bytes (length c.body)
    then false
    else if is_empty c.body
    then true
    else starts_with (or_empty c.content_type) "application/json"

-- The IdempotencyStore protocol over a state, and what the middleware takes besides.
pub record Wiring (S : Type 0) : Type 0 where
  pub claim : Attempt → Exec S Claim
  pub complete : ℕ → String → StoredResponse → Exec S (Unit {0})
  pub release : ℕ → String → Exec S (Unit {0})
  pub caller_of : Request → Option ℕ
  pub enabled : Bool
  pub rendering : Rendering
  pub correlation : Correlation
  pub decode : Bytes → Result String
  pub encode : String → Bytes

abbrev pub attempt_of : ℕ → String → Request → Bytes → Attempt
attempt_of caller key req body = record {
  user_id = caller;
  key = key;
  method = req.method;
  path = req.path;
  body = body;
}

abbrev pub is_too_large : Exception → Bool
is_too_large (domain e) = elim e.cls [ payload_too_large_error ↦ true | _ ↦ false ]
is_too_large _ = false

module _ {S : Type 0} (w : Wiring S) where
  -- `_refuse`
  abbrev pub refuse : ℕ → String → ErrorCode → Answer
  refuse status detail code = sends (
      w.rendering.respond_json
        (error_response w.correlation status (sentence detail) detail code [] []))

  -- `_replay`
  abbrev pub send_again : StoredResponse → Answer
  send_again r = sends (
      w.rendering.respond r.status_code (w.encode r.body) r.content_type
        (("Idempotent-Replay", "true") ∷ []))

  -- An exception of the store is logged and swallowed, in `_forget` and `_remember`.
  abbrev pub quietly : Result (Unit {0}) × S → S
  quietly (r, s) = s

  abbrev pub forget : Attempt → S → S
  forget a s = quietly (w.release a.user_id a.key s)

  abbrev pub record_text : Attempt → Captured → Result String → S → S
  record_text a c (err e) s = s
  record_text a c (ok decoded) s = quietly (
      w.complete a.user_id a.key
        (record { status_code = c.status_code; body = decoded; content_type = c.content_type }) s)

  -- `_remember`
  abbrev pub remember : Attempt → Captured → S → S
  remember a c s = if not (is_storable c) then forget a s else record_text a c (w.decode c.body) s

  -- `_run`, after the application has answered.
  abbrev pub settle : Attempt → Answer → Result (Unit {0}) → S → Answer × S
  settle a answer (ok done) s = (answer, remember a (capture answer.sent) s)
  settle a answer (err e) s = (answer, forget a s)

module _ {S : Type 0} (w : Wiring S) (app : App S) where
  abbrev pub run : Attempt → Request → Bytes → S → Answer × S
  run a req body s =
      let (answer, s') = app (record req { body = ok body }) s in
      settle w a answer answer.outcome s'

  abbrev pub on_claim :
      Attempt → Request → Bytes → ClaimState → Option StoredResponse → S → Answer × S
  on_claim a req body replay (some stored) s = (send_again w stored, s)
  on_claim a req body replay none s = run a req body s
  on_claim a req body mismatch stored s = (
    refuse w 409 "This Idempotency-Key was already used with a different request"
        idempotency_body_mismatch,
    s,
  )
  on_claim a req body in_flight stored s =
      (refuse w 409 "A request with this Idempotency-Key is still running" idempotency_in_flight, s)
  on_claim a req body fresh stored s = run a req body s

  -- An exception of `claim` leaves the middleware.
  abbrev pub claimed_or_raised : Attempt → Request → Bytes → Result Claim × S → Answer × S
  claimed_or_raised a req body (ok c, s) = on_claim a req body c.state c.stored s
  claimed_or_raised a req body (err e, s) = (record { sent = []; outcome = err e }, s)

  abbrev pub with_body : ℕ → String → Request → Result Bytes → S → Answer × S
  with_body caller key req (ok body) s =
      let a = attempt_of caller key req body in claimed_or_raised a req body (w.claim a s)
  with_body caller key req (err e) s =
      if is_too_large e
      then (refuse w 413 "Request body too large" payload_too_large, s)
      else (record { sent = []; outcome = err e }, s)

  abbrev pub with_caller : String → Request → Option ℕ → S → Answer × S
  with_caller key req none s = app req s
  with_caller key req (some caller) s = with_body caller key req req.body s

  abbrev pub with_key : Request → Option String → S → Answer × S
  with_key req none s = app req s
  with_key req (some key) s =
      if not (is_idempotent_method req.method)
      then app req s
      else if not (is_valid_key key)
      then (
        refuse w 400 "Idempotency-Key must be 1 to 255 printable characters"
            idempotency_invalid_key,
        s,
      )
      else with_caller key req (w.caller_of req) s

  -- IdempotencyMiddleware.__call__
  unfoldable pub idempotency : App S
  idempotency req s =
      if not req.is_http || not w.enabled
      then app req s
      else with_key req (header_ci "Idempotency-Key" req.headers) s
