-- ===== src/Services/UserService/Register.antt =====
-- `register` of app/services/user_service.py, with other transactions between its check and its
-- write.
use fastapi_template.Prelude.{
  String, ◌≡◌, inl, inr, true, not, Option, none, some, arith, if◌then◌else◌, Option-cases, any,
  select, first,
}
use fastapi_template.Errors.{Result, ok, err}
use fastapi_template.Models.{insert_row, Db, Role, user_role, admin_role, UserRow, User}
use fastapi_template.Exec.{raise, ◌>>=◌, try_catch}
use fastapi_template.Services.UserService.{
  UserCreate, email_taken, role_missing, as_conflict, role_named, new_row, register,
}
use fastapi_template.Services.UserService.Lookups.{
  IsConsistent, get_by_email_lem, get_by_name_lem, is_some-map,
}
use fastapi_template.Services.Support.{PasswordHash}
use fastapi_template.Repositories.Unique.{is_some-first-select}
use fastapi_template.Repositories.Users
use fastapi_template.Repositories.Roles

abbrev pub first_role : Db → String
first_role db = if not (any (λ (u : UserRow). true) db.users.rows) then admin_role else user_role

-- The role of the new account, looked up after the others have committed.
abbrev pub found_role : Db → Db → Option Role
found_role db later = first (select (Roles.is_named (first_role db)) later.roles.rows)

-- What the write answers.
abbrev pub written : UserCreate → String → Db → Option Role → Result User × Db
written sent hashed db none = (err role_missing, db)
written sent hashed db (some role) =
    let row = new_row sent hashed role db.users.next_id in
    if any (Users.has_email sent.email) db.users.rows then (err email_taken, db) else (
      ok (Users.load db row),
      Users.with_users db (insert_row (new_row sent hashed role) db.users),
    )

create_or_conflict :
    (sent : UserCreate) (hashed : String) (role : Role) (db : Db)
    → try_catch (Users.create (new_row sent hashed role)) (λ e. raise (as_conflict e)) db
      ≡ written sent hashed db (some role)
unfolding Users.create as_conflict
create_or_conflict sent hashed role db = ground (arith)

-- The part of `register` after the check.
register_rest :
    (passwords : PasswordHash) (meanwhile : Db → Db) (sent : UserCreate) (db : Db)
    → IsConsistent (meanwhile db)
    → (role_named (first_role db) >>= λ role.
          try_catch
            (Users.create (new_row sent (passwords.hash sent.password) role))
            (λ e. raise (as_conflict e)))
        (meanwhile db)
      ≡ written sent (passwords.hash sent.password) (meanwhile db) (found_role db (meanwhile db))
unfolding role_named
register_rest passwords meanwhile sent db later =
    rw (get_by_name_lem (meanwhile db) later (first_role db))
      (elim (Option-cases (found_role db (meanwhile db))) [
        | inl missing ↦ rw missing
        | inr (role, found) ↦
            rw found (create_or_conflict sent (passwords.hash sent.password) role (meanwhile db))
      ])

-- Whatever other transactions commit while the password is hashed, as long as the unique
-- constraints hold before and after, registration answers in exactly one of four ways: the
-- conflict of an address that is taken before the hash, the conflict of one taken at the write, a
-- missing role, or the new account, which is appended to the accounts as they then are. No unique
-- violation leaves it raw. The role asked for is superadmin exactly where the table was empty at
-- the check.
pub register_lem :
    (passwords : PasswordHash) (meanwhile : Db → Db) (sent : UserCreate) (db : Db)
    → IsConsistent db
    → IsConsistent (meanwhile db)
    → register passwords meanwhile sent db ≡ (
        if any (Users.has_email sent.email) db.users.rows
        then (err email_taken, db)
        else written sent
            (passwords.hash sent.password)
            (meanwhile db)
            (found_role db (meanwhile db)))
unfolding register Users.exists_any
register_lem passwords meanwhile sent db inv later = ground (
  arith,
  get_by_email_lem db inv sent.email,
  is_some-map (Users.load db) (first (select (Users.has_email sent.email) db.users.rows)),
  is_some-first-select (Users.has_email sent.email) db.users.rows,
  register_rest passwords meanwhile sent db later,
)
