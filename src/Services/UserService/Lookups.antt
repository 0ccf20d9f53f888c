-- ===== src/Services/UserService/Lookups.antt =====
-- The lookups of app/services/user_service.py on tables that meet their unique constraints.
use fastapi_template.Prelude.{
  ℕ, ◌<◌, String, ◌≡◌, refl, Bool, ◌&&◌, Option, none, some, arith, str_eq, eq_iff, ◌==◌, is_some,
  All, select, first,
}
use fastapi_template.Errors.{ok, err}
use fastapi_template.Models.{Db, Role, UserRow, is_active}
use fastapi_template.Services.UserService.{role_missing, user_missing, role_named}
use fastapi_template.Repositories.Unique.{Apart, Separates, one_or_none-select}
use mathlib.Core.Option
use fastapi_template.Repositories.Users
use fastapi_template.Services.UserService
use fastapi_template.Repositories.Roles

-- Two rows that `uq_users_email_active` forbids.
abbrev pub same_address : UserRow → UserRow → Bool
same_address u v = is_active u.deleted_at && is_active v.deleted_at && str_eq u.email v.email

abbrev pub same_user : UserRow → UserRow → Bool
same_user u v = u.id == v.id

abbrev pub same_name : Role → Role → Bool
same_name r s = str_eq r.name s.name

abbrev pub same_role : Role → Role → Bool
same_role r s = r.id == s.id

-- The unique constraints of accounts and roles, and the sequence of the account ids.
pub record IsConsistent (db : Db) : Type 0 where
  pub addresses : Apart same_address db.users.rows
  pub user_ids : Apart same_user db.users.rows
  pub user_sequence : All (λ u. u.id < db.users.next_id) db.users.rows
  pub role_names : Apart same_name db.roles.rows
  pub role_ids : Apart same_role db.roles.rows

has_email_separates : (email : String) → Separates same_address (Users.has_email email)
has_email_separates email u v hu hv =
    ground (arith, eq_iff u.email email, eq_iff v.email email, eq_iff u.email v.email)

pub has_id_separates : (i : ℕ) → Separates same_user (Users.has_id i)
has_id_separates i u v hu hv = ground arith

is_named_separates : (name : String) → Separates same_name (Roles.is_named name)
is_named_separates name r s hr hs =
    ground (arith, eq_iff r.name name, eq_iff s.name name, eq_iff r.name s.name)

module _ (db : Db) (inv : IsConsistent db) where
  pub get_by_email_lem :
      (email : String)
      → Users.get_by_email email db ≡ (
        ok (Option.map (Users.load db) (first (select (Users.has_email email) db.users.rows))),
        db,
      )
  unfolding Users.get_by_email
  get_by_email_lem email = rw (
      one_or_none-select same_address (Users.has_email email) db.users.rows
        (has_email_separates email) inv.addresses)

  pub get_user_lem :
      (i : ℕ)
      → Users.get i db
        ≡ (ok (Option.map (Users.load db) (first (select (Users.has_id i) db.users.rows))), db)
  unfolding Users.get
  get_user_lem i = rw (
      one_or_none-select same_user (Users.has_id i) db.users.rows (has_id_separates i) inv.user_ids)

  pub get_by_name_lem :
      (name : String)
      → Roles.get_by_name name db ≡ (ok (first (select (Roles.is_named name) db.roles.rows)), db)
  unfolding Roles.get_by_name
  get_by_name_lem name = rw (
      one_or_none-select same_name (Roles.is_named name) db.roles.rows (is_named_separates name)
        inv.role_names)

pub is_some-map : {A B : Type 0} (f : A → B) (o : Option A) → is_some (Option.map f o) ≡ is_some o
is_some-map f none = refl
is_some-map f (some a) = refl

abbrev pub found_user : ℕ → Db → Option UserRow
found_user i db = first (select (Users.has_id i) db.users.rows)

abbrev pub found_named : String → Db → Option Role
found_named name db = first (select (Roles.is_named name) db.roles.rows)

module _ (db : Db) (inv : IsConsistent db) where
  pub get-found :
      (i : ℕ) (u : UserRow)
      → found_user i db ≡ some u
      → UserService.get i db ≡ (ok (Users.load db u), db)
  unfolding UserService.get
  get-found i u e = rw (get_user_lem db inv i) (rw e refl)

  pub get-missing : (i : ℕ) → found_user i db ≡ none → UserService.get i db ≡ (err user_missing, db)
  unfolding UserService.get
  get-missing i e = rw (get_user_lem db inv i) (rw e refl)

  pub role_named-found :
      (name : String) (role : Role)
      → found_named name db ≡ some role
      → role_named name db ≡ (ok role, db)
  unfolding role_named
  role_named-found name role e = rw (get_by_name_lem db inv name) (rw e refl)

  pub role_named-missing :
      (name : String) → found_named name db ≡ none → role_named name db ≡ (err role_missing, db)
  unfolding role_named
  role_named-missing name e = rw (get_by_name_lem db inv name) (rw e refl)
