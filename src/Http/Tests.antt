-- ===== src/Http/Tests.antt =====
-- Runs of the middlewares of app/core/http.
use fastapi_template.Prelude.{
  ℕ, ◌+◌, String, ◌≡◌, refl, true, false, none, some, List, [], ◌∷◌, arith, str_eq, eq_iff,
  if◌then◌else◌, Bytes,
}
use fastapi_template.Errors.{other_exception, ok, err}
use fastapi_template.Models.{Db, empty_db}
use fastapi_template.Security.{access_token_type, payload_of, decode_as, decode_access_token}
use fastapi_template.Services.AuthService.Tests.{unary, deployment, mint_1}
use fastapi_template.Services.UserService.Tests.{ada, staffed, staffed-IsConsistent}
use fastapi_template.Deps.{password_moved_after, load, get_actor}
use fastapi_template.Http.IdempotencyStore.Callers.{caller_of-get_actor}
use fastapi_template.Http.Replay.{Arrives, repeated, clash_answer, in_pieces, idempotency-replays}
use fastapi_template.Http.BodyLimit.Limits.{refusal, body_limit_lem}
use fastapi_template.Http.BodyLimit.{pos, declared_length, body_limit}
use fastapi_template.Http.Asgi.{response_start, response_body, sends, Request, App, Rendering}
use fastapi_template.Http.Errors.{
  Context, RawError, Headers, Correlation, request_id_header, header, unexpected_failure, handle,
}
use fastapi_template.Http.Idempotency.{is_idempotent_method, is_valid_key, is_storable, idempotency}
use fastapi_template.Http.IdempotencyStore.{caller_of, Deployment, Occasion, wiring}
use fastapi_template.Http.Errors.Shape.{handle-request_id}
use fastapi_template.Services.IdempotencyService.{fingerprint}
use fastapi_template.Services.IdempotencyService.Tests.{
  tiny_sha, moment, post, empty-HasUniqueKeys, post_wins,
}
use fastapi_template.Http.Idempotency.Once.{Reaches}
use fastapi_template.Services.UserService
use fastapi_template.Repositories.Users

abbrev silent : Correlation
silent = record { from_state = some "req-1"; from_context = none }

abbrev plain_rendering : Rendering
plain_rendering = record {
  respond = λ status body kind headers. response_start status headers ∷ response_body body ∷ [];
  respond_json = λ e. response_start e.status e.headers ∷ [];
}

-- A deployment where every token is one of the same account.
abbrev signed_as : ℕ → Deployment
signed_as subject = record {
  sha = tiny_sha;
  timeout = 60;
  crypto = deployment.crypto;
  text_of = λ s. payload_of (unary subject) access_token_type 900000000 none mint_1;
  is_space = λ c. false;
  rendering = plain_rendering;
  decode = λ b. ok "{}";
}

abbrev small : Deployment
small = signed_as 7

abbrev creation : Request
creation = record {
  is_http = true;
  method = "POST";
  path = "/items";
  headers = ("idempotency-key", "k1") ∷ ("authorization", "Bearer x") ∷ [];
  body = ok (1 ∷ 2 ∷ []);
}

abbrev at_time : ℕ → Occasion
at_time t = record {
  decodes_at = 6000000;
  claims_at = moment t;
  completes_at = t + 1;
  correlation = silent;
}

arrives : (t : ℕ) → Reaches (wiring small (at_time t)) creation 7 "k1" (1 ∷ 2 ∷ [])
unfolding is_idempotent_method is_valid_key caller_of decode_access_token decode_as
arrives t = record {
  http = refl;
  on = refl;
  keyed = refl;
  method = refl;
  valid = refl;
  known = refl;
  readable = refl;
}

abbrev arrival : ℕ → Arrives small 7 "k1"
arrival t = record {
  occasion = at_time t;
  request = creation;
  body = 1 ∷ 2 ∷ [];
  reaches = arrives t;
}

-- An application that answers 201 with an empty object.
abbrev creates : App Db
creates req db = (
  sends (
      response_start 201 (("Content-Type", "application/json") ∷ [])
      ∷ response_body (123 ∷ [])
      ∷ response_body (125 ∷ [])
      ∷ []),
  db,
)

abbrev fails : App Db
fails req db = (record { sent = []; outcome = err other_exception }, db)

-- A key whose request is done.
abbrev seeded_keys : Db
seeded_keys = record empty_db {
  idempotency_keys = record {
    next_id = 2;
    rows =
        record {
          id = 1;
          created_at = some (record { at = 100; aware = true });
          key = "k1";
          user_id = 7;
          method = "POST";
          path = "/items";
          request_hash = "long";
          status_code = some 201;
          response_body = some "{}";
          content_type = some "application/json";
          completed_at = some 101;
        }
        ∷ [];
  };
}

caller_of-get_actor_example : caller_of (signed_as 1) 6000000 creation ≡ some 1
unfolding get_actor load decode_access_token decode_as UserService.get Users.get
    password_moved_after Users.roles_of
caller_of-get_actor_example =
    caller_of-get_actor (signed_as 1) staffed staffed-IsConsistent 6000000 6000001 creation "x" refl
      refl refl (record { user = Users.load staffed ada; impersonator = none }) refl

-- The headers and the pieces of the answer of `creates`
abbrev json : Headers
json = ("Content-Type", "application/json") ∷ []

abbrev braces : List Bytes
braces = (123 ∷ []) ∷ (125 ∷ []) ∷ []

idempotency-replays_example :
    ((idempotency (wiring small (at_time 100)) creates creation empty_db).0
      ≡ sends (in_pieces 201 json braces))
    × (idempotency
          (wiring small (at_time 900))
          fails
          creation
          (idempotency (wiring small (at_time 100)) creates creation empty_db).1
        ≡ (
          if str_eq (fingerprint tiny_sha post) (fingerprint tiny_sha post)
              then repeated small 201 json (123 ∷ 125 ∷ [])
              else clash_answer small (at_time 900),
          (idempotency (wiring small (at_time 100)) creates creation empty_db).1,
        ))
unfolding is_storable
idempotency-replays_example =
    idempotency-replays small 7 "k1" (arrival 100) (arrival 900) creates fails 201 json braces "{}"
      empty_db empty-HasUniqueKeys empty-HasUniqueKeys post_wins (λ req db. refl) refl refl refl
      refl

handle-request_id_example :
    ((handle silent unexpected_failure).request_id ≡ some "req-1")
    × (header request_id_header (handle silent unexpected_failure).headers ≡ some "req-1")
handle-request_id_example =
    handle-request_id silent unexpected_failure "req-1" refl
      (λ e. ground (arith, eq_iff "req-1" ""))

abbrev refused : String → RawError
refused input = record {
  kind = "string_too_short";
  loc = "body" ∷ "password" ∷ [];
  msg = "too short";
  input = input;
  ctx = some (("min_length", Context.number 8) ∷ ("error", Context.object) ∷ []);
}

abbrev posted : Request
posted = record { is_http = true; method = "POST"; path = "/"; headers = []; body = ok [] }

-- An application that fails as reading the body does.
abbrev reads : App ℕ
reads req s = (record { sent = []; outcome = elim req.body [ err e ↦ err e | ok body ↦ ok tt ] }, s)

body_limit_lem_example :
    body_limit
      (λ t. some (pos 3))
      2
      plain_rendering
      silent
      reads
      ((1 ∷ []) ∷ (2 ∷ 3 ∷ []) ∷ [])
      (record posted { headers = ("content-length", "3") ∷ [] })
      0
    ≡ (sends (plain_rendering.respond_json (refusal silent)), 0)
unfolding declared_length
body_limit_lem_example =
    body_limit_lem (λ t. some (pos 3)) 2 plain_rendering silent reads ((1 ∷ []) ∷ (2 ∷ 3 ∷ []) ∷ [])
      (record posted { headers = ("content-length", "3") ∷ [] }) (some (pos 3)) 0 refl refl
