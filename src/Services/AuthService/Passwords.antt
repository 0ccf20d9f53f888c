-- ===== src/Services/AuthService/Passwords.antt =====
-- `change_password` of app/services/auth_service.py.
use fastapi_template.Prelude.{
  ℕ, String, ◌≡◌, ◌≢◌, inl, inr, Bool, true, not, ◌&&◌, some, [], arith, ◌==◌, Bool-cases, any,
  select, update, select-update_none, select-update_other,
}
use fastapi_template.Errors.{ok}
use fastapi_template.Models.{Db, UserRow}
use fastapi_template.Services.AuthService.{Deployment, revoke_sessions, change_password}
use fastapi_template.Repositories.Unique.{first-select_holds, first-update}
use fastapi_template.Services.UserService.Lookups.{same_user, IsConsistent, found_user}
use fastapi_template.Repositories.Users
use fastapi_template.Repositories.RefreshTokens

-- The current password was right, no session of the account is left, and the account has the new
-- password from `changed_at` on; the open accounts of other ids are as they were.
pub record IsChanged (d : Deployment) (row : UserRow) (current_password new_password : String)
    (changed_at : ℕ) (before after : Db) : Type 0 where
  pub right : d.passwords.verify current_password row.hashed_password ≡ true
  pub no_session :
      (token_hash : String) (now : ℕ)
      → select
          (λ t. t.user_id == row.id && RefreshTokens.is_active_refresh token_hash now t)
          after.refresh_tokens.rows
        ≡ []
  pub renewed :
      found_user row.id after
      ≡ some (record row {
        hashed_password = d.passwords.hash new_password;
        password_changed_at = some changed_at;
      })
  pub others :
      (j : ℕ)
      → j ≢ row.id
      → select (Users.has_id j) after.users.rows ≡ select (Users.has_id j) before.users.rows

module _ (d : Deployment) (row : UserRow) (db : Db) (con : IsConsistent db)
    (owner : found_user row.id db ≡ some row) (current_password new_password : String)
    (changed_at revoked_at : ℕ) where
  abbrev new_row : UserRow
  new_row = record row {
    hashed_password = d.passwords.hash new_password;
    password_changed_at = some changed_at;
  }

  abbrev mine : UserRow → Bool
  mine o = o.id == row.id

  abbrev clash : UserRow → Bool
  clash o = not (o.id == row.id) && Users.clashes new_row o

  renewed_lem :
      found_user row.id (
        Users.with_users db
          (record { rows = update mine (λ o. new_row) db.users.rows; next_id = db.users.next_id }))
      ≡ some new_row
  renewed_lem =
      first-update same_user mine (Users.has_id row.id) (λ o. new_row) db.users.rows row
        (λ r s hr hs. ground arith) con.user_ids owner (ground arith)
        (ground (arith, first-select_holds (Users.has_id row.id) db.users.rows row owner))

  no_session_lem :
      (token_hash : String) (now : ℕ)
      → select
          (λ t. t.user_id == row.id && RefreshTokens.is_active_refresh token_hash now t)
          (update
            (RefreshTokens.is_open_of row.id)
            (RefreshTokens.revoked revoked_at)
            db.refresh_tokens.rows)
        ≡ []
  no_session_lem token_hash now =
      select-update_none
        (λ t. t.user_id == row.id && RefreshTokens.is_active_refresh token_hash now t)
        (RefreshTokens.is_open_of row.id) (RefreshTokens.revoked revoked_at) db.refresh_tokens.rows
        (λ r. elim (Bool-cases (RefreshTokens.is_open_of row.id r)) [
          | inl live ↦ rw live (ground arith)
          | inr dead ↦ rw dead (ground (arith, dead))
        ])

  -- Under the unique constraints, where an open account changes its password with success, the
  -- current password was right, no refresh token of the account is active at any time after, the
  -- account has the hash of the new password and the time of the change, and the open accounts of
  -- other ids are as they were.
  pub change_password-IsChanged :
      (change_password d
          (Users.load db row)
          current_password
          new_password
          changed_at
          revoked_at
          db).0
        ≡ ok tt
      → IsChanged d row current_password new_password changed_at db
          (change_password d
            (Users.load db row)
            current_password
            new_password
            changed_at
            revoked_at
            db).1
  unfolding change_password revoke_sessions Users.save RefreshTokens.revoke_all_for_user
  change_password-IsChanged h =
      elim (Bool-cases (d.passwords.verify current_password row.hashed_password)) [
        | inr wrong ↦ absurd (ground (arith, wrong, h))
        | inl right ↦ elim (Bool-cases (any clash db.users.rows)) [
          | inl taken ↦ absurd (ground (arith, right, taken, h))
          | inr free ↦ elim (Bool-cases (any mine db.users.rows)) [
            | inr missing ↦ absurd (ground (arith, right, free, missing, h))
            | inl there ↦
                rw (right, free, there)
                  (record {
                    right = right;
                    no_session = no_session_lem;
                    renewed = renewed_lem;
                    others = λ j ne.
                        select-update_other (Users.has_id j) mine (λ o. new_row) db.users.rows
                          (λ o p. (ground arith, ground arith));
                  })
          ]
        ]
      ]
