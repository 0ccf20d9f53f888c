-- ===== src/Services/PasswordReset/Laws.antt =====
-- `confirm` of app/services/password_reset_service.py: what a redeemed link leaves.
use fastapi_template.Prelude.{
  ℕ, String, ◌≡◌, refl, inl, inr, Bool, true, false, not, ◌&&◌, Option, none, some, List, [], arith,
  ◌==◌, Bool-cases, Option-cases, any, select, update, first, select-update_none,
}
use fastapi_template.Errors.{ok}
use fastapi_template.Models.{RefreshToken, SingleUseToken, Db, UserRow, User}
use fastapi_template.Services.SingleUseTokens.{Issuer, with_owner, owner_of, redeem}
use fastapi_template.Repositories.Unique.{
  first-select_holds, first-update, first-weaken, select-update_unique, select-update_stays,
}
use fastapi_template.Repositories.SingleUseTokens.{
  is_active_token, used, is_token, mark_used, is_unused_for, revoke_all_for,
}
use fastapi_template.Repositories.RefreshTokens.{revoked, is_open_of, revoke_all_for_user}
use fastapi_template.Services.SingleUseTokens.Redeeming.{
  same_hash, HasUniqueHashes, has_hash, has_hash_separates, active_token, active_lem,
}
use fastapi_template.Services.UserService.Lookups.{
  same_user, IsConsistent, get_user_lem, found_user,
}
use fastapi_template.Services.PasswordReset.{confirm_found, confirm}
use fastapi_template.Services.Support.{PasswordHash}
use mathlib.Core.Option
use mathlib.Core.Path.{subst}
use fastapi_template.Repositories.Users

-- The link `token` was good for the account `row`, and is spent: it opens nothing more at any later
-- time, no other link of the purpose is live, every session of the account is over, and the account
-- has the new password.
pub record IsReset (i : Issuer) (passwords : PasswordHash) (token new_password : String) (now : ℕ)
    (before after : Db) : Type 0 where
  pub stored : SingleUseToken
  pub row : UserRow
  pub was_active : active_token i token now before ≡ some stored
  pub owner : found_user stored.user_id before ≡ some row
  pub spent :
      (later : ℕ)
      → select (is_active_token (i.hash_token token) i.purpose later) after.single_use_tokens.rows
        ≡ []
  pub no_link : select (is_unused_for row.id i.purpose) after.single_use_tokens.rows ≡ []
  pub no_session : select (is_open_of row.id) after.refresh_tokens.rows ≡ []
  pub renewed :
      found_user row.id after
      ≡ some (record row {
        hashed_password = passwords.hash new_password;
        password_changed_at = some now;
      })

module _ (i : Issuer) (passwords : PasswordHash) (token new_password : String) (now : ℕ)
    (db : Db) where
  abbrev renewed_row : UserRow → UserRow
  renewed_row row = record row {
    hashed_password = passwords.hash new_password;
    password_changed_at = some now;
  }

  -- `redeem`, of the tables.
  abbrev redeemed : Option SingleUseToken → Option (SingleUseToken × User)
  redeemed none = none
  redeemed (some stored) =
      with_owner stored (Option.map (Users.load db) (found_user stored.user_id db))

  redeem_lem :
      HasUniqueHashes db
      → IsConsistent db
      → redeem i token now db ≡ (ok (redeemed (active_token i token now db)), db)
  unfolding redeem
  redeem_lem inv con = rw (active_lem i token now db inv) (owner (active_token i token now db))
    where
      owner : (o : Option SingleUseToken) → owner_of o db ≡ (ok (redeemed o), db)
      owner none = refl
      owner (some stored) = rw (get_user_lem db con stored.user_id) refl

  module _ (stored : SingleUseToken) (row : UserRow) (con : IsConsistent db)
      (inv : HasUniqueHashes db) (was_active : active_token i token now db ≡ some stored)
      (owner : found_user stored.user_id db ≡ some row) where
    abbrev answers : String → ℕ → SingleUseToken → Bool
    answers h later = is_active_token h i.purpose later

    abbrev marked : List SingleUseToken
    marked = update (is_token stored) (used now) db.single_use_tokens.rows

    spent_lem :
        (later : ℕ)
        → select
            (answers (i.hash_token token) later)
            (update (is_unused_for row.id i.purpose) (used now) marked)
          ≡ []
    spent_lem later =
        select-update_stays (answers (i.hash_token token) later) (is_unused_for row.id i.purpose)
          (used now) marked (λ r. ground arith)
          (select-update_unique same_hash (is_token stored) (answers (i.hash_token token) later)
            (has_hash (i.hash_token token)) (used now) (λ r. ground arith)
            (λ r e. ground (arith, e)) db.single_use_tokens.rows stored
            (has_hash_separates (i.hash_token token)) inv
            (first-weaken same_hash (answers (i.hash_token token) now)
              (has_hash (i.hash_token token)) db.single_use_tokens.rows stored
              (has_hash_separates (i.hash_token token)) inv (λ r e. ground (arith, e)) was_active)
            (ground arith))

    abbrev clash : UserRow → Bool
    clash o = not (o.id == row.id) && Users.clashes (renewed_row row) o

    abbrev mine : UserRow → Bool
    mine o = o.id == row.id

    has_row : Users.has_id stored.user_id row ≡ true
    has_row = first-select_holds (Users.has_id stored.user_id) db.users.rows row owner

    renewed_lem :
        first (select (Users.has_id row.id) (update mine (λ o. renewed_row row) db.users.rows))
        ≡ some (renewed_row row)
    renewed_lem =
        let same : stored.user_id ≡ row.id = ground (arith, has_row) in
        first-update same_user mine (Users.has_id row.id) (λ o. renewed_row row) db.users.rows row
          (λ r s hr hs. ground arith) con.user_ids
          (subst (λ n. found_user n db ≡ some row) same owner) (ground arith)
          (ground (arith, has_row))

    no_live :
        (p : SingleUseToken → Bool) (rs : List SingleUseToken)
        → ((r : SingleUseToken) → p (used now r) ≡ false)
        → select p (update p (used now) rs) ≡ []
    no_live p rs w = select-update_none p p (used now) rs (λ r. elim (Bool-cases (p r)) [
      | inl live ↦ rw live (w r)
      | inr dead ↦ rw (dead, dead) refl
    ])

    no_open :
        (p : RefreshToken → Bool) (rs : List RefreshToken)
        → ((r : RefreshToken) → p (revoked now r) ≡ false)
        → select p (update p (revoked now) rs) ≡ []
    no_open p rs w = select-update_none p p (revoked now) rs (λ r. elim (Bool-cases (p r)) [
      | inl live ↦ rw live (w r)
      | inr dead ↦ rw (dead, dead) refl
    ])

    found-IsReset :
        (confirm_found i (passwords.hash new_password) now (some (stored, Users.load db row)) db).0
          ≡ ok tt
        → IsReset i passwords token new_password now db
            (confirm_found i
              (passwords.hash new_password)
              now
              (some (stored, Users.load db row))
              db).1
    unfolding Users.save mark_used revoke_all_for revoke_all_for_user
    found-IsReset h = elim (Bool-cases (any clash db.users.rows)) [
      | inl taken ↦ absurd (ground (arith, taken, h))
      | inr free ↦ elim (Bool-cases (any mine db.users.rows)) [
        | inl there ↦
            rw (free, there)
              (record {
                stored = stored;
                row = row;
                was_active = was_active;
                owner = owner;
                spent = spent_lem;
                no_link = no_live (is_unused_for row.id i.purpose) marked (λ r. ground arith);
                no_session = no_open (is_open_of row.id) db.refresh_tokens.rows (λ r. ground arith);
                renewed = renewed_lem;
              })
        | inr missing ↦ absurd (ground (arith, free, missing, h))
      ]
    ]

  -- Under the unique constraints, where a reset is confirmed, the token was active and its account
  -- open. After it the token opens nothing at any time, the account has no other live reset token
  -- and no open session, and it has the hash of the new password.
  pub confirm-IsReset :
      HasUniqueHashes db
      → IsConsistent db
      → (confirm i passwords token new_password now db).0 ≡ ok tt
      → IsReset i passwords token new_password now db
          (confirm i passwords token new_password now db).1
  unfolding confirm
  confirm-IsReset inv con = rw (redeem_lem inv con) (split (active_token i token now db) refl)
    where
      split :
          (o : Option SingleUseToken)
          → active_token i token now db ≡ o
          → (confirm_found i (passwords.hash new_password) now (redeemed o) db).0 ≡ ok tt
          → IsReset i passwords token new_password now db
              (confirm_found i (passwords.hash new_password) now (redeemed o) db).1
      split none e = λ h. absurd (cc)
      split (some stored) e = elim (Option-cases (found_user stored.user_id db)) [
        | inl gone ↦ rw gone (λ h. absurd (cc))
        | inr (u, k) ↦ rw k (found-IsReset stored u con inv e k)
      ]
