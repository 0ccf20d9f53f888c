-- ===== src/Services/UserService/Tests.antt =====
-- Runs of app/services/user_service.py on a small database.
use fastapi_template.Prelude.{
  ℕ, ◌≡◌, refl, ◌≢◌, true, none, some, [], ◌∷◌, arith, str_eq, eq_refl, if◌then◌else◌, any,
}
use fastapi_template.Errors.{err}
use fastapi_template.Models.{Db, empty_db, Role, UserRow}
use fastapi_template.Services.UserService.Lookups.{IsConsistent, found_user}
use fastapi_template.Services.UserService.{UserCreate, email_taken}
use fastapi_template.Services.UserService.Register.{found_role, written, register_lem}
use fastapi_template.Services.UserService.Superadmin.{
  is_superadmin, remove_role-keeps_own_superadmin,
}
use fastapi_template.Services.UserService.Closing.{IsClosed, remove-IsClosed}
use fastapi_template.Services.Support.{PasswordHash}
use fastapi_template.Authorization.{is_superuser, outranks}
use fastapi_template.Repositories.Users
use fastapi_template.Repositories.Roles
use fastapi_template.Repositories.Items
use fastapi_template.Services.UserService

-- A stand-in for the password hash.
abbrev pub plain : PasswordHash
plain = record { hash = λ p. p; verify = str_eq; verify-hash = eq_refl }

abbrev pub admin : Role
admin = record { id = 1; name = "superadmin"; features = none; grants = [] }

abbrev pub member : Role
member = record { id = 2; name = "user"; features = none; grants = [] }

abbrev pub seeded : Db
seeded = record empty_db { roles = record { rows = admin ∷ member ∷ []; next_id = 3 } }

abbrev pub ada : UserRow
ada = record {
  id = 1;
  email = "ada@x.org";
  name = none;
  hashed_password = "engine";
  email_verified_at = none;
  password_changed_at = none;
  deleted_at = none;
  role_ids = 1 ∷ [];
}

abbrev pub bob : UserRow
bob = record ada { id = 2; email = "bob@x.org"; role_ids = 2 ∷ [] }

abbrev pub staffed : Db
staffed = record seeded { users = record { rows = ada ∷ bob ∷ []; next_id = 3 } }

abbrev pub sent_ada : UserCreate
sent_ada = record { email = "ada@x.org"; password = "engine"; name = none }

abbrev pub idle : Db → Db
idle db = db

pub seeded-IsConsistent : IsConsistent seeded
seeded-IsConsistent = record {
  addresses = tt;
  user_ids = tt;
  user_sequence = tt;
  role_names = ((refl, tt), (tt, tt));
  role_ids = ((refl, tt), (tt, tt));
}

pub staffed-IsConsistent : IsConsistent staffed
staffed-IsConsistent = record {
  addresses = ((refl, tt), (tt, tt));
  user_ids = ((refl, tt), (tt, tt));
  user_sequence = (omega arith, (omega arith, tt));
  role_names = ((refl, tt), (tt, tt));
  role_ids = ((refl, tt), (tt, tt));
}

-- The first account is a superadmin, the second a user.
first_is_admin : (UserService.register plain idle sent_ada seeded).1.users.rows ≡ ada ∷ []
unfolding UserService.register UserService.role_named Users.get_by_email Users.exists_any
    Users.create Roles.get_by_name
first_is_admin = refl

register_lem_example : UserService.register plain idle sent_ada seeded ≡ (
    if any (Users.has_email sent_ada.email) seeded.users.rows
    then (err email_taken, seeded)
    else written sent_ada "engine" seeded (found_role seeded seeded))
register_lem_example =
    register_lem plain idle sent_ada seeded seeded-IsConsistent seeded-IsConsistent

remove_role-keeps_own_superadmin_example :
    is_superadmin 1 (UserService.remove_role (Users.load staffed ada) 1 "superadmin" staffed).1
    ≡ true
unfolding is_superuser Users.roles_of
remove_role-keeps_own_superadmin_example =
    remove_role-keeps_own_superadmin (Users.load staffed ada) 1 "superadmin" staffed
      staffed-IsConsistent refl

remove-IsClosed_example :
    (◌≢◌ {A = ℕ} 2 1)
    × ((u : UserRow) × (found_user 2 staffed ≡ some u)
        × (outranks (Users.load staffed ada) (Users.load staffed u) ≡ true))
    × IsClosed 2 staffed (UserService.remove (Users.load staffed ada) 2 5 6 staffed).1
unfolding UserService.remove UserService.get UserService.close Users.get outranks is_superuser
    Users.roles_of Users.soft_delete Items.soft_delete_for_owner
remove-IsClosed_example =
    remove-IsClosed (Users.load staffed ada) 2 5 6 staffed staffed-IsConsistent refl
