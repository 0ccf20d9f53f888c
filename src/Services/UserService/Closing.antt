-- ===== src/Services/UserService/Closing.antt =====
-- `_close`, `deactivate` and `remove` of app/services/user_service.py: what a closed account leaves.
use fastapi_template.Prelude.{
  ℕ, ◌≡◌, refl, ap, ◌≢◌, inl, inr, true, not, Option, none, some, [], arith, ◌==◌, if◌then◌else◌,
  Bool-cases, Option-cases, select, first, select-update_none, select-update_other,
}
use fastapi_template.Errors.{
  auth_insufficient_permissions, user_close_own_account, Result, ok, err, forbidden_of,
}
use fastapi_template.Models.{Item, Db, UserRow, User}
use fastapi_template.Services.UserService.Lookups.{IsConsistent, found_user, get-found, get-missing}
use fastapi_template.Services.UserService.{user_missing}
use fastapi_template.Repositories.Unique.{first-select_holds}
use fastapi_template.Authorization.{outranks}
use mathlib.Core.Path.{subst}
use fastapi_template.Repositories.Users
use fastapi_template.Repositories.Items
use fastapi_template.Services.UserService

-- The account and its items are gone, and every other account and its items are as they were.
pub record IsClosed (i : ℕ) (before after : Db) : Type 0 where
  pub gone : found_user i after ≡ none
  pub emptied : select (Items.is_owned i) after.items.rows ≡ []
  pub others :
      (j : ℕ)
      → j ≢ i
      → select (Users.has_id j) after.users.rows ≡ select (Users.has_id j) before.users.rows
  pub others_items :
      (j : ℕ)
      → j ≢ i
      → select (Items.is_owned j) after.items.rows ≡ select (Items.is_owned j) before.items.rows

abbrev closing_item : ℕ → Item → Item
closing_item now i = Items.bumped (Items.mark_deleted now i)

pub close-IsClosed :
    (user : User) (now later : ℕ) (db : Db)
    → IsClosed user.id db (UserService.close user now later db).1
unfolding UserService.close Users.soft_delete Items.soft_delete_for_owner
close-IsClosed user now later db = record {
  gone = ap first (
      select-update_none (Users.has_id user.id) (Users.is_row_of user) (Users.mark_deleted later)
        db.users.rows (λ o. ground arith));
  emptied =
      select-update_none (Items.is_owned user.id) (Items.is_owned user.id) (closing_item now)
        db.items.rows (λ o. ground arith);
  others = λ j ne.
      select-update_other (Users.has_id j) (Users.is_row_of user) (Users.mark_deleted later)
        db.users.rows (λ o p. (ground arith, ground arith));
  others_items = λ j ne.
      select-update_other (Items.is_owned j) (Items.is_owned user.id) (closing_item now)
        db.items.rows (λ o p. (ground arith, ground arith));
}

-- What `remove` answers, with the database after it.
abbrev pub removed : User → Option UserRow → ℕ → ℕ → Db → Result (Unit {0}) × Db
removed actor none now later db = (err user_missing, db)
removed actor (some u) now later db =
    if u.id == actor.id
    then (err (forbidden_of "Close your own account from your profile" user_close_own_account), db)
    else if not (outranks actor (Users.load db u))
    then (err (forbidden_of "Insufficient permissions" auth_insufficient_permissions), db)
    else UserService.close (Users.load db u) now later db

pub remove_lem :
    (actor : User) (user_id now later : ℕ) (db : Db)
    → IsConsistent db
    → UserService.remove actor user_id now later db
      ≡ removed actor (found_user user_id db) now later db
unfolding UserService.remove
remove_lem actor user_id now later db inv = elim (Option-cases (found_user user_id db)) [
  | inl gone ↦ rw (get-missing db inv user_id gone, gone) refl
  | inr (u, e) ↦ rw (get-found db inv user_id u e, e) (ground arith)
]

-- Under the unique constraints, an administrator that removes an account succeeds only on an open
-- account of another person whom it outranks. The account and its open items are then gone, and
-- the open accounts and items of every other id are as they were.
pub remove-IsClosed :
    (actor : User) (user_id now later : ℕ) (db : Db)
    → IsConsistent db
    → (UserService.remove actor user_id now later db).0 ≡ ok tt
    → (user_id ≢ actor.id)
      × ((u : UserRow) × (found_user user_id db ≡ some u)
          × (outranks actor (Users.load db u) ≡ true))
      × IsClosed user_id db (UserService.remove actor user_id now later db).1
remove-IsClosed actor user_id now later db inv =
    rw (remove_lem actor user_id now later db inv) (split (found_user user_id db) refl)
  where
    split :
        (o : Option UserRow)
        → found_user user_id db ≡ o
        → (removed actor o now later db).0 ≡ ok tt
        → (user_id ≢ actor.id)
          × ((u : UserRow) × (o ≡ some u) × (outranks actor (Users.load db u) ≡ true))
          × IsClosed user_id db (removed actor o now later db).1
    split none e h = absurd (cc)
    split (some u) e h =
        let has : Users.has_id user_id u ≡ true =
          first-select_holds (Users.has_id user_id) db.users.rows u e in
        let same : u.id ≡ user_id = ground arith in
        elim (Bool-cases (u.id == actor.id)) [
          | inl own_account ↦ absurd (ground arith)
          | inr other ↦ elim (Bool-cases (outranks actor (Users.load db u))) [
            | inl above ↦
                rw (other, above)
                  (
                    ground arith,
                    (u, refl, above),
                    subst (λ i. IsClosed i db (UserService.close (Users.load db u) now later db).1)
                        same (close-IsClosed (Users.load db u) now later db),
                  )
            | inr below ↦ absurd (ground arith)
          ]
        ]
