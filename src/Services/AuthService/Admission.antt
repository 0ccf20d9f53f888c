-- ===== src/Services/AuthService/Admission.antt =====
-- `authenticate` of app/services/auth_service.py, and the session that it opens.
use fastapi_template.Prelude.{
  ℕ, ◌+◌, ◌<◌, String, ◌≡◌, refl, sym, inl, inr, Bool, true, false, not, ◌&&◌, Option, some, List,
  [], ◌∷◌, arith, str_eq, eq_refl, Bool-cases, Option-cases, is_some, any, All, select, first,
  select-append,
}
use fastapi_template.Errors.{ok}
use fastapi_template.Models.{RefreshToken, insert_row, Db, UserRow}
use fastapi_template.Security.{Mint, create_access_token}
use fastapi_template.Services.AuthService.{
  normalize_email, TokenPair, Deployment, Issuing, hash_to_check, pair_for, refresh_row, issue,
  admit, authenticate, refresh,
}
use fastapi_template.Repositories.Unique.{first-select_holds, Apart-append, first-found}
use fastapi_template.Services.UserService.Lookups.{
  same_user, IsConsistent, has_id_separates, get_by_email_lem, found_user,
}
use fastapi_template.Services.AuthService.Refreshing.{
  same_hash, HasUniqueHashes, active_row, refresh_for_lem,
}
use fastapi_template.Security.Claims.{IsCurrent, decode-create_refresh}
use fastapi_template.Repositories.Users
use fastapi_template.Repositories.RefreshTokens
use mathlib.Core.Option

module _ (d : Deployment) where
  module _ (email password : String) (at : Issuing) (db : Db) (con : IsConsistent db) where
    abbrev pub account : Option UserRow
    account = first (select (Users.has_email (normalize_email d.unicode email)) db.users.rows)

    pub authenticate_lem :
        authenticate d email password at db
        ≡ admit d
            (Option.map (Users.load db) account)
            (d.passwords.verify password (hash_to_check d (Option.map (Users.load db) account)))
            at
            db
    unfolding authenticate
    authenticate_lem = rw (get_by_email_lem db con (normalize_email d.unicode email)) refl

    -- The password is that of an open account, which has confirmed its address where that is
    -- required, and the pair is its own.
    pub record IsAdmitted (pair : TokenPair d.crypto.Text) : Type 0 where
      pub row : UserRow
      pub found : account ≡ some row
      pub matches : d.passwords.verify password row.hashed_password ≡ true
      pub confirmed : (d.require_verified_email && not (is_some row.email_verified_at)) ≡ false
      pub own_pair : pair ≡ pair_for d (Users.load db row) at
      pub by_id : found_user row.id db ≡ some row
      pub free :
          any
            (λ t.
              str_eq t.token_hash
                (d.crypto.digest (pair_for d (Users.load db row) at).refresh_token))
            db.refresh_tokens.rows
          ≡ false
      pub written :
          (authenticate d email password at db).1
          ≡ RefreshTokens.with_refresh db
              (insert_row (refresh_row d (Users.load db row) at) db.refresh_tokens)

    admit_ok :
        (row : UserRow) (pair : TokenPair d.crypto.Text)
        → account ≡ some row
        → (authenticate d email password at db).0 ≡ ok pair
        → IsAdmitted pair
    unfolding issue RefreshTokens.create
    admit_ok row pair e h =
        let verified : Bool = d.passwords.verify password row.hashed_password in
        let unconfirmed : Bool = d.require_verified_email && not (is_some row.email_verified_at) in
        let taken : Bool =
          any
            (λ t.
              str_eq t.token_hash
                (d.crypto.digest (pair_for d (Users.load db row) at).refresh_token))
            db.refresh_tokens.rows in
        let same : authenticate d email password at db
            ≡ admit d (some (Users.load db row)) verified at db =
          rw (authenticate_lem, e) refl in
        let h2 : (admit d (some (Users.load db row)) verified at db).0 ≡ ok pair =
          rw (sym same) h in
        elim (Bool-cases verified) [
          | inr wrong ↦ absurd (ground (arith, wrong, h2))
          | inl right ↦ elim (Bool-cases unconfirmed) [
            | inl waiting ↦ absurd (ground (arith, right, waiting, h2))
            | inr confirmed ↦ elim (Bool-cases taken) [
              | inl used ↦ absurd (ground (arith, right, confirmed, used, h2))
              | inr free ↦ record {
                row = row;
                found = e;
                matches = right;
                confirmed = confirmed;
                own_pair = ground (arith, right, confirmed, free, h2);
                by_id =
                    first-found same_user (Users.has_id row.id)
                      (Users.has_email (normalize_email d.unicode email)) db.users.rows row
                      (has_id_separates row.id) con.user_ids e
                      (ground (
                        arith,
                        first-select_holds (Users.has_email (normalize_email d.unicode email))
                            db.users.rows row e,
                      ));
                free = free;
                written = rw (same, right, confirmed, free) refl;
              }
            ]
          ]
        ]

    pub authenticate-IsAdmitted :
        (pair : TokenPair d.crypto.Text)
        → (authenticate d email password at db).0 ≡ ok pair
        → IsAdmitted pair
    authenticate-IsAdmitted pair h = elim (Option-cases account) [
      | inl nobody ↦ absurd (ground (arith, authenticate_lem, nobody, h))
      | inr (row, e) ↦ admit_ok row pair e h
    ]

    same_hash_free :
        (h : String) (row : RefreshToken)
        → row.token_hash ≡ h
        → (rs : List RefreshToken) → any (λ t. str_eq t.token_hash h) rs ≡ false
        → All (λ s. same_hash s row ≡ false) rs
    same_hash_free h row e [] k = tt
    same_hash_free h row e (r ∷ rs) k =
        (rw e (ground arith), same_hash_free h row e rs (ground arith))

    none_active :
        (h : String) (now : ℕ) (rs : List RefreshToken)
        → any (λ t. str_eq t.token_hash h) rs ≡ false
        → select (RefreshTokens.is_active_refresh h now) rs ≡ []
    none_active h now [] k = refl
    none_active h now (r ∷ rs) k = ground (arith, none_active h now rs)

    module _ (row : UserRow) (inv : HasUniqueHashes db) where
      abbrev issued_pair : TokenPair d.crypto.Text
      issued_pair = pair_for d (Users.load db row) at

      abbrev new_row : RefreshToken
      new_row = refresh_row d (Users.load db row) at db.refresh_tokens.next_id

      abbrev opened : Db
      opened =
          RefreshTokens.with_refresh db
            (insert_row (refresh_row d (Users.load db row) at) db.refresh_tokens)

      opened-IsConsistent : IsConsistent opened
      opened-IsConsistent = record {
        addresses = con.addresses;
        user_ids = con.user_ids;
        user_sequence = con.user_sequence;
        role_names = con.role_names;
        role_ids = con.role_ids;
      }

      opened-refresh :
          (decoded_at now : ℕ) (mint : Mint)
          → any (λ t. str_eq t.token_hash new_row.token_hash) db.refresh_tokens.rows ≡ false
          → found_user row.id db ≡ some row
          → IsCurrent at.refresh d.lifetimes.refresh decoded_at
          → now < at.stored_at + d.lifetimes.refresh
          → refresh d issued_pair.refresh_token decoded_at now mint opened ≡ (
            ok (record {
              access_token = create_access_token d.crypto d.lifetimes (d.crypto.str row.id) mint;
              refresh_token = issued_pair.refresh_token;
            }),
            opened,
          )
      unfolding refresh
      opened-refresh decoded_at now mint free by_id current fresh =
          let unique : HasUniqueHashes opened =
            Apart-append same_hash db.refresh_tokens.rows new_row inv
              (same_hash_free new_row.token_hash new_row refl db.refresh_tokens.rows free) in
          let act : RefreshToken → Bool = RefreshTokens.is_active_refresh new_row.token_hash now in
          let active : active_row d issued_pair.refresh_token now opened ≡ some new_row = ground (
            arith,
            select-append act db.refresh_tokens.rows (new_row ∷ []),
            none_active new_row.token_hash now db.refresh_tokens.rows free,
            eq_refl new_row.token_hash,
          ) in
          rw
            (
              decode-create_refresh d.crypto d.lifetimes (d.crypto.str row.id) at.refresh decoded_at
                  current,
              d.crypto.int-str row.id,
              refresh_for_lem d issued_pair.refresh_token now mint row.id opened unique
                  opened-IsConsistent,
              active,
              by_id,
            )
            (ground arith)

    -- Under the unique constraints, a pair of tokens that a sign-in returns belongs to the open
    -- account of the address, whose password verified. Until the row and the text expire, its
    -- refresh token gives a new access token of that account, and a refresh writes nothing.
    pub authenticate-refresh :
        (pair : TokenPair d.crypto.Text) (decoded_at now : ℕ) (mint : Mint)
        → HasUniqueHashes db
        → (authenticate d email password at db).0 ≡ ok pair
        → IsCurrent at.refresh d.lifetimes.refresh decoded_at
        → now < at.stored_at + d.lifetimes.refresh
        → (row : UserRow) × (account ≡ some row)
          × (d.passwords.verify password row.hashed_password ≡ true)
          × (refresh d pair.refresh_token decoded_at now mint
                (authenticate d email password at db).1
              ≡ (
                ok (record {
                  access_token =
                      create_access_token d.crypto d.lifetimes (d.crypto.str row.id) mint;
                  refresh_token = pair.refresh_token;
                }),
                (authenticate d email password at db).1,
              ))
    authenticate-refresh pair decoded_at now mint inv h current fresh =
        let a : IsAdmitted pair = authenticate-IsAdmitted pair h in
        (
          a.row,
          a.found,
          a.matches,
          rw (a.own_pair, a.written)
              (opened-refresh a.row inv decoded_at now mint a.free a.by_id current fresh),
        )
