-- ===== src/Exec.antt =====
-- Calls that read and change a state and may raise. What was written before a raise stays in the
-- session, so the state comes back beside the exception too; `get_session` of app/db/session.py
-- drops it at the boundary of the request.
pub mod Keeps
use fastapi_template.Prelude.{Bool, true, false}
use fastapi_template.Errors.{Exception, Result, ok, err}

abbrev pub Exec : Type 0 → Type 0 → Type 0
Exec S A = S → Result A × S

module _ {S A : Type 0} where
  abbrev pub pure : A → Exec S A
  pure a s = (ok a, s)

  abbrev pub raise : Exception → Exec S A
  raise e s = (err e, s)

  -- A query: it reads the state and may raise.
  abbrev pub read : (S → Result A) → Exec S A
  read f s = (f s, s)

-- if test: raise e
abbrev pub refuse_if : {S : Type 0} → Bool → Exception → Exec S (Unit {0})
refuse_if true e s = (err e, s)
refuse_if false e s = (ok tt, s)

module _ {S A B : Type 0} where
  abbrev pub resume : (A → Exec S B) → Result A × S → Result B × S
  resume f (ok a, s) = f a s
  resume f (err e, s) = (err e, s)

  infixl 10 ◌>>=◌ ◌>>◌
  abbrev pub ◌>>=◌ : Exec S A → (A → Exec S B) → Exec S B
  ◌>>=◌ m f s = resume f (m s)

  abbrev pub ◌>>◌ : Exec S A → Exec S B → Exec S B
  m >> n = m >>= λ _. n

module _ {S A : Type 0} where
  abbrev pub handled : (Exception → Exec S A) → Result A × S → Result A × S
  handled h (ok a, s) = (ok a, s)
  handled h (err e, s) = h e s

  -- try: … except: …
  abbrev pub try_catch : Exec S A → (Exception → Exec S A) → Exec S A
  try_catch m h s = handled h (m s)

  abbrev pub settled : S → Result A × S → Result A × S
  settled before (ok a, s) = (ok a, s)
  settled before (err e, s) = (err e, before)

  -- The transaction of a request: commit on success, rollback on any exception. A rollback undoes
  -- what the request wrote, and leaves what other transactions committed (`meanwhile`).
  unfoldable pub get_session_among : (S → S) → Exec S A → Exec S A
  get_session_among meanwhile m s = settled (meanwhile s) (m s)

  -- The transaction of a request during which no other commits.
  unfoldable pub get_session : Exec S A → Exec S A
  get_session m s = settled s (m s)
