-- ===== src/Http/Asgi.antt =====
-- ASGI messages and applications, as the middlewares of app/core/http use them.
use fastapi_template.Prelude.{
  ℕ, String, Bool, Option, none, some, List, [], ◌∷◌, if◌then◌else◌, Bytes, codes, lower, codes_eq,
}
use fastapi_template.Errors.{Result, ok}
use fastapi_template.Http.Errors.{Headers, ErrorResponse}

pub data Message : Type 0 where
  response_start : ℕ → Headers → Message
  response_body : Bytes → Message

-- What an application did: the messages that it sent, and whether it returned or raised.
pub record Answer : Type 0 where
  pub sent : List Message
  pub outcome : Result (Unit {0})

abbrev pub sends : List Message → Answer
sends messages = record { sent = messages; outcome = ok tt }

-- A request, with what reading its whole body gives.
pub record Request : Type 0 where
  pub is_http : Bool
  pub method : String
  pub path : String
  pub headers : Headers
  pub body : Result Bytes

-- An application gets what `receive` gives, and changes the state of the program.
abbrev pub App : Type 0 → Type 0
App S = Request → S → Answer × S

-- Starlette's rendering of a Response and of a JSONResponse: a parameter of the model.
pub record Rendering : Type 0 where
  pub respond : ℕ → Bytes → Option String → Headers → List Message
  pub respond_json : ErrorResponse → List Message

-- headers.get(name), which ignores case
abbrev pub header_ci : String → Headers → Option String
header_ci name [] = none
header_ci name ((n, v) ∷ rest) =
    if codes_eq (lower (codes n)) (lower (codes name)) then some v else header_ci name rest
