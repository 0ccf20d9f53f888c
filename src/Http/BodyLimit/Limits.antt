-- ===== src/Http/BodyLimit/Limits.antt =====
-- No body over the limit of app/core/http/body_limit.py reaches the application.
use fastapi_template.Prelude.{
  ℕ, ◌+◌, ◌≤◌, String, ◌≡◌, refl, inl, inr, true, Option, none, some, List, [], ◌∷◌, arith, ltb,
  if◌then◌else◌, Bool-cases, length, Bytes,
}
use fastapi_template.Errors.{payload_too_large, ok, err}
use fastapi_template.Http.BodyLimit.{
  ℤ, pos, negsuc, too_large, declared_length, bounded, is_over, joined, body_limit,
}
use fastapi_template.Http.Errors.{
  sentence, ErrorResponse, Correlation, correlation_id, with_id, error_response,
}
use fastapi_template.Http.Asgi.{sends, Request, App, Rendering}

abbrev pub total : List Bytes → ℕ
total [] = 0
total (chunk ∷ chunks) = length chunk + total chunks

bounded-from :
    (max_bytes received : ℕ) (chunks : List Bytes)
    → received ≤ max_bytes
    → bounded max_bytes received chunks
      ≡ (if ltb max_bytes (received + total chunks) then err too_large else ok (joined chunks))
unfolding bounded
bounded-from max_bytes received [] h = ground (arith, h)
bounded-from max_bytes received (chunk ∷ chunks) h =
    elim (Bool-cases (ltb max_bytes (received + length chunk))) [
      | inl over ↦ ground (arith, over)
      | inr fits ↦
          let rest : bounded max_bytes (received + length chunk) chunks ≡ (
              if ltb max_bytes (received + length chunk + total chunks)
              then err too_large
              else ok (joined chunks)) =
            bounded-from max_bytes (received + length chunk) chunks (ground (arith, fits)) in
          ground (arith, fits, rest)
    ]

-- The response of a refusal, written out
abbrev pub refusal : Correlation → ErrorResponse
refusal c = record {
  status = 413;
  detail = sentence "Request body too large";
  message = "Request body too large";
  code = payload_too_large;
  params = [];
  request_id = correlation_id c;
  headers = with_id (correlation_id c) [];
}

-- What a length header declares; none, or a negative one, is as good as nothing.
abbrev pub announced : Option ℤ → ℕ
announced none = 0
announced (some (pos n)) = n
announced (some (negsuc n)) = 0

is_over-announced :
    (max_bytes : ℕ) (declared : Option ℤ)
    → is_over max_bytes declared ≡ ltb max_bytes (announced declared)
is_over-announced max_bytes none = ground arith
is_over-announced max_bytes (some (pos n)) = refl
is_over-announced max_bytes (some (negsuc n)) = ground arith

-- An HTTP request whose length header can be read is refused, with status 413, the detail and the
-- code of a body that is too large and the correlation id, and does not reach the application,
-- where it declares more than the limit; a negative length declares nothing. Else the application
-- reads the whole body where the chunks sum up to at most the limit, and fails to read it where
-- they sum up to more, however they are cut.
pub body_limit_lem :
    {S : Type 0} (int : String → Option ℤ) (max_bytes : ℕ) (rendering : Rendering) (c : Correlation)
    (app : App S) (chunks : List Bytes) (req : Request) (declared : Option ℤ) (s : S)
    → req.is_http ≡ true
    → declared_length int req.headers ≡ ok declared
    → body_limit int max_bytes rendering c app chunks req s ≡ (
        if ltb max_bytes (announced declared)
        then (sends (rendering.respond_json (refusal c)), s)
        else app
            (record req {
              body = if ltb max_bytes (total chunks) then err too_large else ok (joined chunks);
            })
            s)
unfolding body_limit error_response
body_limit_lem int max_bytes rendering c app chunks req declared s http read_header =
    rw
      (
        http,
        read_header,
        is_over-announced max_bytes declared,
        bounded-from max_bytes 0 chunks (omega arith),
      )
      (ground arith)
