-- ===== src/Services/AuthService/Refreshing.antt =====
-- Sessions of app/services/auth_service.py: sign in, refresh, sign out.
use fastapi_template.Prelude.{
  ℕ, String, ◌≡◌, refl, ◌⊎◌, inl, inr, Bool, Option, none, some, List, [], arith, str_eq, eq_iff,
  if◌then◌else◌, Bool-cases, Option-cases, is_some, opt_str_eq, select, update, first,
  select-update_none,
}
use fastapi_template.Errors.{Result, ok, err}
use fastapi_template.Models.{RefreshToken, Db, UserRow}
use fastapi_template.Security.{
  Payload, refresh_token_type, invalid_credentials, Mint, checked, text_or_empty, then_do,
  subject_of, create_access_token, decode_as, decode_refresh_token,
}
use fastapi_template.Services.AuthService.{
  TokenPair, Deployment, is_foreign, refresh_for, refresh, logout,
}
use fastapi_template.Repositories.Unique.{Apart, Separates, one_or_none-select}
use fastapi_template.Services.UserService.Lookups.{IsConsistent, get_user_lem, found_user}
use fastapi_template.Repositories.RefreshTokens

abbrev pub same_hash : RefreshToken → RefreshToken → Bool
same_hash s t = str_eq s.token_hash t.token_hash

abbrev pub HasUniqueHashes : Db → Type 0
HasUniqueHashes db = Apart same_hash db.refresh_tokens.rows

active_separates :
    (h : String) (now : ℕ) → Separates same_hash (RefreshTokens.is_active_refresh h now)
active_separates h now s t hs ht =
    ground (arith, eq_iff s.token_hash h, eq_iff t.token_hash h, eq_iff s.token_hash t.token_hash)

module _ (d : Deployment) where
  abbrev pub active_row : d.crypto.Text → ℕ → Db → Option RefreshToken
  active_row token now db =
      first (
        select (RefreshTokens.is_active_refresh (d.crypto.digest token) now) db.refresh_tokens.rows)

  get_active_lem :
      (token : d.crypto.Text) (now : ℕ) (db : Db)
      → HasUniqueHashes db
      → RefreshTokens.get_active (d.crypto.digest token) now db ≡ (ok (active_row token now db), db)
  unfolding RefreshTokens.get_active
  get_active_lem token now db inv = rw (
      one_or_none-select same_hash (RefreshTokens.is_active_refresh (d.crypto.digest token) now)
        db.refresh_tokens.rows (active_separates (d.crypto.digest token) now) inv)

  -- What `refresh` answers: it never writes.
  abbrev pub refreshed :
      d.crypto.Text
      → Mint
      → ℕ
      → Option RefreshToken
      → Option UserRow
      → Db
      → Result (TokenPair d.crypto.Text)
  refreshed token mint user_id stored user db =
      if is_foreign d user_id stored then err invalid_credentials else elim user [
        | none ↦ err invalid_credentials
        | some row ↦ ok (record {
          access_token = create_access_token d.crypto d.lifetimes (d.crypto.str row.id) mint;
          refresh_token = token;
        })
      ]

  pub refresh_for_lem :
      (token : d.crypto.Text) (now : ℕ) (mint : Mint) (user_id : ℕ) (db : Db)
      → HasUniqueHashes db
      → IsConsistent db
      → refresh_for d token now mint (some user_id) db
        ≡ (refreshed token mint user_id (active_row token now db) (found_user user_id db) db, db)
  refresh_for_lem token now mint user_id db inv con =
      rw (get_active_lem token now db inv)
        (elim (Bool-cases (is_foreign d user_id (active_row token now db))) [
          | inl foreign ↦ rw foreign refl
          | inr mine ↦
              rw (mine, get_user_lem db con user_id)
                (elim (Option-cases (found_user user_id db)) [
                  | inl gone ↦ rw gone refl
                  | inr (u, e) ↦ rw e refl
                ])
        ])

  decode-cases :
      (now : ℕ) (token : d.crypto.Text)
      → (decode_refresh_token d.crypto now token ≡ err invalid_credentials)
        ⊎ ((s : String) × (decode_refresh_token d.crypto now token ≡ ok s))
  unfolding decode_refresh_token decode_as
  decode-cases now token = split (d.crypto.decode now token)
    where
      split :
          (o : Option Payload)
          → (then_do (checked refresh_token_type o) subject_of ≡ err invalid_credentials)
            ⊎ ((s : String) × (then_do (checked refresh_token_type o) subject_of ≡ ok s))
      split none = inl refl
      split (some p) = elim (Bool-cases (opt_str_eq p.kind (some refresh_token_type))) [
        | inr other ↦ inl (rw other refl)
        | inl kind ↦ elim (Bool-cases (is_some p.subject)) [
          | inr nobody ↦ inl (rw (kind, nobody) refl)
          | inl named ↦ elim (Bool-cases (is_some p.act)) [
            | inl acting ↦ inl (rw (kind, named, acting) refl)
            | inr plain ↦ inr (text_or_empty p.subject, rw (kind, named, plain) refl)
          ]
        ]
      ]

  -- No row answers the digest of the text: it refreshes nothing.
  pub refresh-inactive :
      (token : d.crypto.Text) (decoded_at now : ℕ) (mint : Mint) (db : Db)
      → select (RefreshTokens.is_active_refresh (d.crypto.digest token) now) db.refresh_tokens.rows
        ≡ []
      → refresh d token decoded_at now mint db ≡ (err invalid_credentials, db)
  unfolding refresh RefreshTokens.get_active
  refresh-inactive token decoded_at now mint db none_active = elim (decode-cases decoded_at token) [
    | inl bad ↦ rw bad refl
    | inr (s, e) ↦ rw e (elim (Option-cases (d.crypto.int s)) [
      | inl odd ↦ rw odd refl
      | inr (i, k) ↦ rw (k, none_active) refl
    ])
  ]

  inactive_after :
      (h : String) (at now : ℕ) (rs : List RefreshToken)
      → select
          (RefreshTokens.is_active_refresh h now)
          (update (RefreshTokens.is_open_hash h) (RefreshTokens.revoked at) rs)
        ≡ []
  inactive_after h at now rs =
      select-update_none (RefreshTokens.is_active_refresh h now) (RefreshTokens.is_open_hash h)
        (RefreshTokens.revoked at) rs
        (λ r. elim (Bool-cases (RefreshTokens.is_open_hash h r)) [
          | inl live ↦ rw live (ground arith)
          | inr closed ↦ rw closed (ground (arith, closed))
        ])

  -- After a sign-out the refresh token is refused with invalid credentials at any later reading of
  -- the clock, whatever rows the table has, and the refusal writes nothing.
  pub logout-refresh :
      (token : d.crypto.Text) (at decoded_at now : ℕ) (mint : Mint) (db : Db)
      → refresh d token decoded_at now mint (logout d token at db).1
        ≡ (err invalid_credentials, (logout d token at db).1)
  unfolding logout RefreshTokens.revoke
  logout-refresh token at decoded_at now mint db =
      refresh-inactive token decoded_at now mint (logout d token at db).1
        (inactive_after (d.crypto.digest token) at now db.refresh_tokens.rows)
