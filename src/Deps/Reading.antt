-- ===== src/Deps/Reading.antt =====
-- Finding out who calls, in app/api/deps.py, only reads.
use fastapi_template.Prelude.{ℕ, String, ◌≡◌, refl, inl, inr, not, Option, none, some, Bool-cases}
use fastapi_template.Errors.{Result-cases}
use fastapi_template.Models.{Db, User}
use fastapi_template.Exec.{pure, refuse_if, ◌>>=◌, ◌>>◌}
use fastapi_template.Deps.{
  may_impersonate, Actor, impersonation_revoked, may_go_on, load, load_impersonator, get_actor,
}
use fastapi_template.Deps.Actors.{load_lem}
use fastapi_template.Security.{Crypto, decode_access_token}
use fastapi_template.Services.UserService.Lookups.{IsConsistent}
use mathlib.Core.Path.{ap}

module _ (c : Crypto) (db : Db) (con : IsConsistent db) where
  load-state : (subject : String) (issued_at : ℕ) → (load c subject issued_at db).1 ≡ db
  load-state subject issued_at = ap (λ r. r.1) (load_lem c db con subject issued_at)

  rest-state :
      (issued_at : ℕ) (user : User) (o : Option String)
      → ((load_impersonator c o issued_at >>= λ impersonator.
            refuse_if (not (may_go_on user impersonator)) impersonation_revoked
            >> pure {S = Db} {A = Actor} (record { user = user; impersonator = impersonator }))
          db).1
        ≡ db
  rest-state issued_at user none = refl
  rest-state issued_at user (some subject) = elim (Result-cases (load c subject issued_at db).0) [
    | inl (e, bad) ↦ rw (bad, load-state subject issued_at) refl
    | inr (behind, good) ↦ elim (Bool-cases (may_impersonate behind user)) [
      | inl allowed ↦ rw (good, load-state subject issued_at, allowed) refl
      | inr revoked ↦ rw (good, load-state subject issued_at, revoked) refl
    ]
  ]

  pub get_actor-state : (token : c.Text) (now : ℕ) → (get_actor c token now db).1 ≡ db
  unfolding get_actor
  get_actor-state token now = elim (Result-cases (decode_access_token c now token)) [
    | inl (e, bad) ↦ rw bad refl
    | inr (claims, decoded) ↦ elim (Result-cases (load c claims.subject claims.issued_at db).0) [
      | inl (e, bad) ↦ rw (decoded, bad, load-state claims.subject claims.issued_at) refl
      | inr (user, good) ↦
          rw (decoded, good, load-state claims.subject claims.issued_at)
            (rest-state claims.issued_at user claims.impersonator)
    ]
  ]
