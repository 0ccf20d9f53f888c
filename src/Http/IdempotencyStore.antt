-- ===== src/Http/IdempotencyStore.antt =====
-- app/api/idempotency_store.py: who calls, and the store, each call of it in a session of its own.
pub mod Callers
use fastapi_template.Prelude.{
  ℕ, String, Bool, true, Option, none, some, List, [], ◌∷◌, ◌==◌, if◌then◌else◌, is_some, Bytes,
  codes, lower_code, stripped,
}
use fastapi_template.Errors.{Result, ok, err}
use fastapi_template.Models.{Db}
use fastapi_template.Exec.{Exec, get_session_among, get_session}
use fastapi_template.Security.{Crypto, AccessClaims, text_or_empty, decode_access_token}
use fastapi_template.Http.Asgi.{Request, Rendering, header_ci}
use fastapi_template.Http.Errors.{Headers, Correlation}
use fastapi_template.Http.Idempotency.{Wiring}
use fastapi_template.Services.IdempotencyService.{
  StoredResponse, Attempt, Claim, Sha256, Moment, claim, complete, release,
}
use fastapi_template.Services.IdempotencyService
use Prim.Native.Char.{Char, code}

abbrev pub bearer_prefix : String
bearer_prefix = "bearer "

-- The text behind a prefix of these small letters, in whatever case it is written.
abbrev pub behind : List ℕ → String → Option String
behind [] s = some s
behind (p ∷ ps) String.[] = none
behind (p ∷ ps) (String.◌∷◌ c s) =
    let rest = behind ps s in if lower_code (code c) == p then rest else none

abbrev pub authorization : Headers → String
authorization headers = text_or_empty (header_ci "authorization" headers)

-- What stays the same between the requests of one deployment; `text_of` reads a token from a header.
pub record Deployment : Type 1 where
  pub sha : Sha256
  pub timeout : ℕ
  pub crypto : Crypto
  pub text_of : String → crypto.Text
  pub is_space : Char → Bool
  pub rendering : Rendering
  pub decode : Bytes → Result String

abbrev pub caller_in : (String → Option ℕ) → Result AccessClaims → Option ℕ
caller_in int (err e) = none
caller_in int (ok claims) = if is_some claims.impersonator then none else int claims.subject

module _ (d : Deployment) where
  abbrev pub caller_with : ℕ → Option String → Option ℕ
  caller_with now none = none
  caller_with now (some rest) =
      caller_in d.crypto.int
        (decode_access_token d.crypto now (d.text_of (stripped d.is_space rest)))

  unfoldable pub caller_of : ℕ → Request → Option ℕ
  caller_of now request =
      caller_with now (behind (codes bearer_prefix) (authorization request.headers))

-- One request: its clock readings, what others commit during its claim, and its correlation id.
pub record Occasion : Type 0 where
  pub decodes_at : ℕ
  pub claims_at : Moment
  pub completes_at : ℕ
  pub correlation : Correlation

unfoldable pub store_claim : Deployment → Occasion → Attempt → Exec Db Claim
store_claim d o a =
    get_session_among o.claims_at.meanwhile (IdempotencyService.claim d.sha d.timeout o.claims_at a)

unfoldable pub store_complete : Occasion → ℕ → String → StoredResponse → Exec Db (Unit {0})
store_complete o user_id key r =
    get_session (IdempotencyService.complete user_id key r o.completes_at)

unfoldable pub store_release : ℕ → String → Exec Db (Unit {0})
store_release user_id key = get_session (IdempotencyService.release user_id key)

-- The middleware as app/main.py builds it.
abbrev pub wiring : Deployment → Occasion → Wiring Db
wiring d o = record {
  claim = store_claim d o;
  complete = store_complete o;
  release = store_release;
  caller_of = caller_of d o.decodes_at;
  enabled = true;
  rendering = d.rendering;
  correlation = o.correlation;
  decode = d.decode;
  encode = d.sha.encode;
}
