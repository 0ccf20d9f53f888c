-- ===== src/Authorization/Tests.antt =====
-- Runs of app/core/authorization.py on small accounts.
use fastapi_template.Prelude.{◌≡◌, refl, ◌||◌, none, some, [], ◌∷◌, any}
use fastapi_template.Models.{Scope, own, all, RolePermission, Role, UserRow, User}
use fastapi_template.Authorization.{is_superuser, scope_for}
use fastapi_template.Authorization.Widest.{grants_of, names, names_all, strongest}
use fastapi_template.Authorization.Laws.{scope_for-eq-strongest}

abbrev grant : Scope → RolePermission
grant scope = record {
  permission = record { id = 1; resource = "items"; action = "read" };
  scope = scope;
}

abbrev wide_role : Role
wide_role = record {
  id = 3;
  name = "auditor";
  features = none;
  grants = grant all ∷ grant own ∷ [];
}

abbrev narrow_role : Role
narrow_role = record { id = 2; name = "user"; features = none; grants = grant own ∷ [] }

abbrev row : UserRow
row = record {
  id = 1;
  email = "a@x.org";
  name = none;
  hashed_password = "";
  email_verified_at = none;
  password_changed_at = none;
  deleted_at = none;
  role_ids = 3 ∷ 2 ∷ [];
}

abbrev reader : User
reader = record { row = row; roles = wide_role ∷ narrow_role ∷ [] }

reads_all : scope_for reader "items" "read" ≡ some all
unfolding scope_for
reads_all = refl

scope_for-eq-strongest_example :
    scope_for reader "items" "read"
    ≡ strongest
        (is_superuser reader || any (names_all ("items", "read")) (grants_of reader.roles))
        (any (names ("items", "read")) (grants_of reader.roles))
scope_for-eq-strongest_example = scope_for-eq-strongest reader "items" "read"
