-- ===== src/Deps/Actors.antt =====
-- What `get_actor` and the guards of app/api/deps.py let through.
use fastapi_template.Prelude.{
  ℕ, String, ◌≡◌, refl, sym, inl, inr, true, false, not, ◌&&◌, Option, none, some, arith,
  if◌then◌else◌, Bool-cases, Option-cases, is_some,
}
use fastapi_template.Errors.{Result, ok, err, Result-cases}
use fastapi_template.Models.{Db, Scope, UserRow, User}
use fastapi_template.Exec.{Exec, pure, refuse_if, ◌>>=◌, ◌>>◌}
use fastapi_template.Deps.{
  Actor, password_moved_after, load_account, impersonation_revoked, may_go_on, load,
  load_impersonator, get_actor, guard,
}
use fastapi_template.Security.{Crypto, invalid_credentials, AccessClaims, decode_access_token}
use fastapi_template.Authorization.{is_blocked, scope_for, may_impersonate}
use fastapi_template.Services.UserService.Lookups.{IsConsistent, found_user, get-found, get-missing}
use fastapi_template.Repositories.Users
use fastapi_template.Repositories.Users

-- `user` is the open account that the subject names, and its password has not changed in a second
-- after the token was made.
pub record IsLoaded (c : Crypto) (db : Db) (subject : String) (issued_at : ℕ) (user : User)
    : Type 0 where
  pub user_id : ℕ
  pub parsed : c.int subject ≡ some user_id
  pub row : UserRow
  pub found : found_user user_id db ≡ some row
  pub is_loaded : user ≡ Users.load db row
  pub current : password_moved_after user issued_at ≡ false

-- Who stands behind a token: nobody, or an account that may impersonate `user` now.
abbrev pub IsBehind : Crypto → Db → ℕ → User → Option String → Option User → Type 0
IsBehind c db issued_at user none none = Unit
IsBehind c db issued_at user (some subject) (some behind) =
    IsLoaded c db subject issued_at behind × (may_impersonate behind user ≡ true)
IsBehind c db issued_at user _ _ = ⊥

pub record IsActor (c : Crypto) (db : Db) (token : c.Text) (now : ℕ) (actor : Actor) : Type 0 where
  pub claims : AccessClaims
  pub decoded : decode_access_token c now token ≡ ok claims
  pub loaded : IsLoaded c db claims.subject claims.issued_at actor.user
  pub behind : IsBehind c db claims.issued_at actor.user claims.impersonator actor.impersonator

module _ (c : Crypto) (db : Db) (con : IsConsistent db) where
  abbrev checked_row : ℕ → Option UserRow → Result User
  checked_row issued_at none = err invalid_credentials
  checked_row issued_at (some row) =
      if password_moved_after (Users.load db row) issued_at
      then err invalid_credentials
      else ok (Users.load db row)

  abbrev loaded : ℕ → Option ℕ → Result User
  loaded issued_at none = err invalid_credentials
  loaded issued_at (some user_id) = checked_row issued_at (found_user user_id db)

  load_account_lem :
      (issued_at : ℕ) (o : Option ℕ) → load_account issued_at o db ≡ (loaded issued_at o, db)
  load_account_lem issued_at none = refl
  load_account_lem issued_at (some user_id) = elim (Option-cases (found_user user_id db)) [
    | inl gone ↦ rw (get-missing db con user_id gone, gone) refl
    | inr (u, e) ↦
        rw (get-found db con user_id u e, e)
          (elim (Bool-cases (password_moved_after (Users.load db u) issued_at)) [
            | inl moved ↦ rw moved refl
            | inr still ↦ rw still refl
          ])
  ]

  pub load_lem :
      (subject : String) (issued_at : ℕ)
      → load c subject issued_at db ≡ (loaded issued_at (c.int subject), db)
  unfolding load
  load_lem subject issued_at = load_account_lem issued_at (c.int subject)

  loaded-IsLoaded :
      (subject : String) (issued_at : ℕ) (user : User)
      → loaded issued_at (c.int subject) ≡ ok user
      → IsLoaded c db subject issued_at user
  loaded-IsLoaded subject issued_at user h = elim (Option-cases (c.int subject)) [
    | inl odd ↦ absurd (ground (arith, odd, h))
    | inr (i, p) ↦ elim (Option-cases (found_user i db)) [
      | inl gone ↦ absurd (ground (arith, p, gone, h))
      | inr (u, e) ↦ elim (Bool-cases (password_moved_after (Users.load db u) issued_at)) [
        | inl moved ↦ absurd (ground (arith, p, e, moved, h))
        | inr still ↦
            let same : user ≡ Users.load db u = ground (arith, p, e, still, h) in
            record {
              user_id = i;
              parsed = p;
              row = u;
              found = e;
              is_loaded = same;
              current = rw same still;
            }
      ]
    ]
  ]

  -- The rest of `get_actor`, once the account is loaded.
  abbrev rest_of : ℕ → User → Option String → Exec Db Actor
  rest_of issued_at user o = load_impersonator c o issued_at >>= λ impersonator.
      refuse_if (not (may_go_on user impersonator)) impersonation_revoked
      >> pure (record { user = user; impersonator = impersonator })

  rest_lem :
      (issued_at : ℕ) (user : User) (o : Option String) (actor : Actor)
      → (rest_of issued_at user o db).0 ≡ ok actor
      → (actor.user ≡ user)
        × IsBehind c db issued_at actor.user o actor.impersonator
        × ((rest_of issued_at user o db).1 ≡ db)
  rest_lem issued_at user none actor h =
      let same : record { user = user; impersonator = none } ≡ actor = ground (arith, h) in
      rw (sym same) (refl, tt, refl)
  rest_lem issued_at user (some subject) actor h =
      elim (Result-cases (loaded issued_at (c.int subject))) [
        | inl (e, bad) ↦ absurd (ground (arith, load_lem subject issued_at, bad, h))
        | inr (behind, good) ↦ elim (Bool-cases (may_impersonate behind user)) [
          | inr revoked ↦ absurd (ground (arith, load_lem subject issued_at, good, revoked, h))
          | inl allowed ↦
              let same : record { user = user; impersonator = some behind } ≡ actor =
                ground (arith, load_lem subject issued_at, good, allowed, h) in
              rw (sym same, load_lem subject issued_at, good, allowed)
                (refl, (loaded-IsLoaded subject issued_at behind good, refl), refl)
        ]
      ]

  pub get_actor-IsActor :
      (token : c.Text) (now : ℕ) (actor : Actor)
      → (get_actor c token now db).0 ≡ ok actor
      → IsActor c db token now actor × ((get_actor c token now db).1 ≡ db)
  unfolding get_actor
  get_actor-IsActor token now actor h = elim (Result-cases (decode_access_token c now token)) [
    | inl (e, bad) ↦ absurd (ground (arith, bad, h))
    | inr (claims, decoded) ↦ elim (Result-cases (loaded claims.issued_at (c.int claims.subject))) [
      | inl (e, bad) ↦
          absurd (ground (arith, decoded, load_lem claims.subject claims.issued_at, bad, h))
      | inr (user, good) ↦
          let same : get_actor c token now db
              ≡ rest_of claims.issued_at user claims.impersonator db =
            rw (decoded, load_lem claims.subject claims.issued_at, good) refl in
          let r : (actor.user ≡ user)
              × IsBehind c db claims.issued_at actor.user claims.impersonator actor.impersonator
              × ((rest_of claims.issued_at user claims.impersonator db).1 ≡ db) =
            rest_lem claims.issued_at user claims.impersonator actor (rw (sym same) h) in
          (
            record {
              claims = claims;
              decoded = decoded;
              loaded = rw r.0 (loaded-IsLoaded claims.subject claims.issued_at user good);
              behind = r.1;
            },
            rw same r.2,
          )
    ]
  ]

  -- Under the unique constraints, a request that passes get_actor and the guard of
  -- require_permission carries a valid access token of an open account that has not changed its
  -- password in a later second than the token was issued. An impersonator behind it is such an
  -- account too and may impersonate the user now, and the key is then none that is blocked while
  -- impersonating. The scope is that of scope_for for the user, and nothing was written.
  pub guard-IsActor :
      (token : c.Text) (now : ℕ) (resource action : String) (scope : Scope)
      → ((get_actor c token now >>= guard resource action) db).0 ≡ ok scope
      → (actor : Actor) × IsActor c db token now actor
        × (scope_for actor.user resource action ≡ some scope)
        × ((is_some actor.impersonator && is_blocked (resource, action)) ≡ false)
        × (((get_actor c token now >>= guard resource action) db).1 ≡ db)
  unfolding guard
  guard-IsActor token now resource action scope h =
      elim (Result-cases (get_actor c token now db).0) [
        | inl (e, bad) ↦ absurd (ground (arith, bad, h))
        | inr (actor, good) ↦
            let a : IsActor c db token now actor × ((get_actor c token now db).1 ≡ db) =
              get_actor-IsActor token now actor good in
            let same : (get_actor c token now >>= guard resource action) db
                ≡ guard resource action actor db =
              rw (good, a.1) refl in
            let h2 : (guard resource action actor db).0 ≡ ok scope = rw (sym same) h in
            elim (Bool-cases (is_some actor.impersonator && is_blocked (resource, action))) [
              | inl blocked ↦ absurd (ground (arith, blocked, h2))
              | inr open_key ↦ elim (Option-cases (scope_for actor.user resource action)) [
                | inl nothing ↦ absurd (ground (arith, open_key, nothing, h2))
                | inr (s, e) ↦ (
                  actor,
                  a.0,
                  ground (arith, open_key, e, h2),
                  open_key,
                  rw (same, open_key, e) refl,
                )
              ]
            ]
      ]
