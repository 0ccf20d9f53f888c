-- ===== src/Http/Idempotency/Once.antt =====
-- The middleware over the store of app/api/idempotency_store.py: a request with a key runs once.
use fastapi_template.Prelude.{ℕ, String, ◌≡◌, Bool, true, false, some, arith, is_some, Bytes}
use fastapi_template.Errors.{ok}
use fastapi_template.Exec.{settled}
use fastapi_template.Http.Idempotency.{
  is_idempotent_method, is_valid_key, Wiring, attempt_of, claimed_or_raised, idempotency,
}
use fastapi_template.Http.Asgi.{Request, App, header_ci}
use fastapi_template.Services.IdempotencyService.{
  fresh, replay, mismatch, in_flight, Claim, claimed,
}

-- The way to the claim: an HTTP request with a valid key, an idempotent method, a known caller and a
-- body that can be read.
pub record Reaches {S : Type 0} (w : Wiring S) (req : Request) (caller : ℕ) (key : String)
    (body : Bytes) : Type 0 where
  pub http : req.is_http ≡ true
  pub on : w.enabled ≡ true
  pub keyed : header_ci "Idempotency-Key" req.headers ≡ some key
  pub method : is_idempotent_method req.method ≡ true
  pub valid : is_valid_key key ≡ true
  pub known : w.caller_of req ≡ some caller
  pub readable : req.body ≡ ok body

module _ {S : Type 0} (w : Wiring S) (app : App S) (req : Request) (caller : ℕ) (key : String)
    (body : Bytes) (r : Reaches w req caller key body) where
  pub idempotency-claims :
      (s : S)
      → idempotency w app req s
        ≡ claimed_or_raised w app
            (attempt_of caller key req body)
            req
            body
            (w.claim (attempt_of caller key req body) s)
  unfolding idempotency
  idempotency-claims s =
      ground (arith, r.http, r.on, r.keyed, r.method, r.valid, r.known, r.readable)

-- Claims that do not let the application run.
abbrev pub is_settled : Claim → Bool
is_settled c = elim c.state [
  | fresh ↦ false
  | replay ↦ is_some c.stored
  | mismatch ↦ true
  | in_flight ↦ true
]

-- A request that reaches the claim, and whose claim is a mismatch, in flight or a replay with its
-- response, gets the same answer and leaves the same state whatever the application is: the
-- application does not run.
pub idempotency-skips_app :
    {S : Type 0} (w : Wiring S) (app other : App S) (req : Request) (caller : ℕ) (key : String)
    (body : Bytes) (s : S) (c : Claim)
    → Reaches w req caller key body
    → (w.claim (attempt_of caller key req body) s).0 ≡ ok c
    → is_settled c ≡ true
    → idempotency w app req s ≡ idempotency w other req s
idempotency-skips_app w app other req caller key body s c r claimed settled =
    rw
      (
        idempotency-claims w app req caller key body r s,
        idempotency-claims w other req caller key body r s,
      )
      (ground arith)
