-- ===== src/Exec/Keeps.antt =====
-- Invariants of calls: one rule for each way in which a call is built.
use fastapi_template.Prelude.{Bool, true, false}
use fastapi_template.Errors.{Exception, Result, ok, err}
use fastapi_template.Exec.{Exec, pure, read, refuse_if, resume, ◌>>=◌, settled, get_session}

-- `m` keeps `P`, whether it returns or raises.
pub record Keeps {S A : Type 0} (P : S → Type 0) (m : Exec S A) : Type 0 where
  pub kept : (s : S) → P s → P (m s).1

module _ {S A : Type 0} {P : S → Type 0} where
  pub Keeps-pure : (a : A) → Keeps P (pure {S = S} a)
  Keeps-pure a = record { kept = λ s h. h }

  pub Keeps-read : (f : S → Result A) → Keeps P (read f)
  Keeps-read f = record { kept = λ s h. h }

pub Keeps-refuse_if :
    {S : Type 0} {P : S → Type 0} (b : Bool) (e : Exception) → Keeps P (refuse_if {S = S} b e)
Keeps-refuse_if true e = record { kept = λ s h. h }
Keeps-refuse_if false e = record { kept = λ s h. h }

module _ {S A B : Type 0} {P : S → Type 0} where
  after_bind :
      (f : A → Exec S B) → ((a : A) → Keeps P (f a)) → (r : Result A × S) → P r.1 → P (resume f r).1
  after_bind f kf (ok a, s) p = (kf a).kept s p
  after_bind f kf (err e, s) p = p

  pub Keeps-bind :
      (m : Exec S A) (f : A → Exec S B) → Keeps P m → ((a : A) → Keeps P (f a)) → Keeps P (m >>= f)
  Keeps-bind m f km kf = record { kept = λ s p. after_bind f kf (m s) (km.kept s p) }

-- The transaction boundary goes back to the state before.
after_session :
    {S A : Type 0} (P : S → Type 0) (before : S) (r : Result A × S)
    → P before
    → P r.1
    → P (settled before r).1
after_session P before (ok a, s) q p = p
after_session P before (err e, s) q p = q

pub Keeps-get_session :
    {S A : Type 0} {P : S → Type 0} (m : Exec S A) → Keeps P m → Keeps P (get_session m)
unfolding get_session
Keeps-get_session {P} m km = record { kept = λ s p. after_session P s (m s) p (km.kept s p) }
