-- ===== src/Http/IdempotencyStore/Callers.antt =====
-- The caller that app/api/idempotency_store.py reads from a token is the one that get_actor of
-- app/api/deps.py admits.
use fastapi_template.Prelude.{
  ℕ, String, ◌≡◌, refl, sym, true, Option, none, some, arith, if◌then◌else◌, is_some, codes,
  stripped,
}
use fastapi_template.Errors.{ok}
use fastapi_template.Models.{Db, User}
use fastapi_template.Security.{Crypto, decode_as, decode_access_token}
use fastapi_template.Deps.{Actor, get_actor}
use fastapi_template.Deps.Actors.{IsLoaded, IsBehind, IsActor, get_actor-IsActor}
use fastapi_template.Http.Asgi.{Request}
use fastapi_template.Http.IdempotencyStore.{
  bearer_prefix, behind, authorization, Deployment, caller_in, caller_of,
}
use fastapi_template.Services.UserService.Lookups.{IsConsistent}
use fastapi_template.Repositories.Unique.{first-select_holds}
use fastapi_template.Repositories.Users

-- The account that a key of this actor belongs to: none while someone impersonates it.
abbrev pub own_id : Actor → Option ℕ
own_id actor = if is_some actor.impersonator then none else some actor.user.id

module _ (c : Crypto) (db : Db) where
  loaded-id :
      (subject : String) (issued_at : ℕ) (user : User)
      → IsLoaded c db subject issued_at user
      → c.int subject ≡ some user.id
  loaded-id subject issued_at user l =
      let has : Users.has_id l.user_id l.row ≡ true =
        first-select_holds (Users.has_id l.user_id) db.users.rows l.row l.found in
      let same : l.row.id ≡ l.user_id = ground arith in rw (l.is_loaded, same) l.parsed

  behind-is_some :
      (issued_at : ℕ) (user : User) (o : Option String) (impersonator : Option User)
      → IsBehind c db issued_at user o impersonator
      → is_some o ≡ is_some impersonator
  behind-is_some issued_at user none none h = refl
  behind-is_some issued_at user (some s) (some b) h = refl
  behind-is_some issued_at user none (some b) h = absurd h
  behind-is_some issued_at user (some s) none h = absurd h

  actor-caller_in :
      (token : c.Text) (now : ℕ) (actor : Actor)
      → IsActor c db token now actor
      → caller_in c.int (decode_access_token c now token) ≡ own_id actor
  actor-caller_in token now actor a =
      rw
        (
          a.decoded,
          behind-is_some a.claims.issued_at actor.user a.claims.impersonator actor.impersonator
              a.behind,
          loaded-id a.claims.subject a.claims.issued_at actor.user a.loaded,
        )
        refl

-- Under the unique constraints, where a request carries a bearer token without white space around
-- it, and the token decodes alike when the middleware reads it and when get_actor does: if
-- get_actor admits the token, the caller of the middleware is the account of the actor, and none
-- where someone impersonates it.
pub caller_of-get_actor :
    (d : Deployment) (db : Db)
    → IsConsistent db
    → (now later : ℕ) (request : Request) (token : String)
    → behind (codes bearer_prefix) (authorization request.headers) ≡ some token
    → stripped d.is_space token ≡ token
    → d.crypto.decode later (d.text_of token) ≡ d.crypto.decode now (d.text_of token)
    → (actor : Actor) → (get_actor d.crypto (d.text_of token) later db).0 ≡ ok actor
    → caller_of d now request ≡ own_id actor
unfolding caller_of decode_access_token decode_as
caller_of-get_actor d db con now later request token bearer bare alike actor admitted =
    let a : IsActor d.crypto db (d.text_of token) later actor =
      (get_actor-IsActor d.crypto db con (d.text_of token) later actor admitted).0 in
    rw (bearer, bare, sym alike) (actor-caller_in d.crypto db (d.text_of token) later actor a)
