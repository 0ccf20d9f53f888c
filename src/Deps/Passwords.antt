-- ===== src/Deps/Passwords.antt =====
-- `_load` of app/api/deps.py after a change of the password.
use fastapi_template.Prelude.{
  ℕ, ◌<◌, String, ◌≡◌, refl, ◌≢◌, ◌⊎◌, inl, inr, some, List, [], ◌∷◌, arith, select, first,
}
use fastapi_template.Errors.{multiple_results_found, ok, err}
use fastapi_template.Models.{Db, UserRow, User}
use fastapi_template.Deps.{password_moved_after, load}
use fastapi_template.Security.{seconds, Crypto}
use fastapi_template.Services.UserService.Lookups.{IsConsistent, found_user}
use fastapi_template.Services.AuthService.{Deployment, change_password}
use fastapi_template.Services.AuthService.Passwords.{IsChanged, change_password-IsChanged}
use fastapi_template.Repositories.Base.{one_or_none}
use fastapi_template.Services.UserService
use fastapi_template.Repositories.Users
use fastapi_template.Repositories.Users

one-cases :
    (rs : List UserRow)
    → (one_or_none rs ≡ err multiple_results_found) ⊎ (one_or_none rs ≡ ok (first rs))
one-cases [] = inr refl
one-cases (r ∷ []) = inr refl
one-cases (r ∷ s ∷ rs) = inl refl

moved-load :
    (c : Crypto) (db : Db) (user_id : ℕ) (row : UserRow) (changed_at : ℕ) (subject : String)
    (issued_at : ℕ) (user : User)
    → found_user user_id db ≡ some row
    → row.password_changed_at ≡ some changed_at
    → c.int subject ≡ some user_id
    → issued_at < seconds changed_at
    → (load c subject issued_at db).0 ≢ ok user
unfolding load UserService.get Users.get password_moved_after
moved-load c db user_id row changed_at subject issued_at user found moved named earlier h =
    elim (one-cases (select (Users.has_id user_id) db.users.rows)) [
      | inl many ↦ ground (arith, named, many, h)
      | inr one ↦ ground (arith, named, one, found, moved, earlier, h)
    ]

-- After a successful change of the password of an open account, no token whose subject is that
-- account and which was issued in an earlier second than the change loads an account.
pub change_password-load :
    (d : Deployment) (row : UserRow) (db : Db) (con : IsConsistent db)
    (owner : found_user row.id db ≡ some row) (current_password new_password : String)
    (changed_at revoked_at : ℕ) (subject : String) (issued_at : ℕ) (user : User)
    → (change_password d
        (Users.load db row)
        current_password
        new_password
        changed_at
        revoked_at
        db).0
      ≡ ok tt
    → d.crypto.int subject ≡ some row.id
    → issued_at < seconds changed_at
    → (load d.crypto subject issued_at
        (change_password d
          (Users.load db row)
          current_password
          new_password
          changed_at
          revoked_at
          db).1).0
      ≢ ok user
change_password-load d row db con owner current_password new_password changed_at revoked_at subject
      issued_at user changed named earlier =
    let after : Db =
      (change_password d (Users.load db row) current_password new_password changed_at revoked_at
        db).1 in
    let c : IsChanged d row current_password new_password changed_at db after =
      change_password-IsChanged d row db con owner current_password new_password changed_at
        revoked_at changed in
    moved-load d.crypto after row.id
      (record row {
        hashed_password = d.passwords.hash new_password;
        password_changed_at = some changed_at;
      })
      changed_at subject issued_at user c.renewed refl named earlier
