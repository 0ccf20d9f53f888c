-- ===== src/Repositories/Roles.antt =====
-- app/repositories/role_repo.py, with the unique constraint on `roles.name` and the primary key of
-- `role_permissions`.
use fastapi_template.Prelude.{
  ℕ, String, Bool, true, false, not, ◌&&◌, ◌||◌, Option, List, [], ◌∷◌, str_eq, ◌==◌, if◌then◌else◌,
  any, select, update, delete, str_le, sort_by,
}
use fastapi_template.Errors.{integrity_error, other_exception, ok, err}
use fastapi_template.Models.{Table, insert_row, Db, Permission, RolePermission, Role, UserRow}
use fastapi_template.Exec.{Exec, read}
use fastapi_template.Repositories.Base.{one_or_none}
use fastapi_template.Repositories.Users.{unique_violation}

abbrev pub is_named : String → Role → Bool
is_named name r = str_eq r.name name

unfoldable pub get : ℕ → Exec Db (Option Role)
get role_id = read (λ db. one_or_none (select (λ r. r.id == role_id) db.roles.rows))

unfoldable pub get_by_name : String → Exec Db (Option Role)
get_by_name name = read (λ db. one_or_none (select (is_named name) db.roles.rows))

abbrev pub with_roles : Db → Table Role → Db
with_roles db t = record db { roles = t }

-- Two grants of one permission, which the primary key of role_permissions refuses
abbrev pub grants_clash : List RolePermission → Bool
grants_clash [] = false
grants_clash (g ∷ gs) = any (λ o. o.permission.id == g.permission.id) gs || grants_clash gs

unfoldable pub create : (ℕ → Role) → Exec Db Role
create make db =
    let role = make db.roles.next_id in
    if any (is_named role.name) db.roles.rows || grants_clash role.grants
    then (err (integrity_error unique_violation), db)
    else (ok role, with_roles db (insert_row make db.roles))

-- `save`: the role and its grants, whose orphans go.
unfoldable pub save : Role → Exec Db Role
save role db =
    if any (λ o. not (o.id == role.id) && is_named role.name o) db.roles.rows
      || grants_clash role.grants
    then (err (integrity_error unique_violation), db)
    else if any (λ o. o.id == role.id) db.roles.rows
    then (
      ok role,
      with_roles db (record {
        rows = update (λ o. o.id == role.id) (λ o. role) db.roles.rows;
        next_id = db.roles.next_id;
      }),
    )
    else (err other_exception, db)

abbrev pub drop_link : ℕ → UserRow → UserRow
drop_link role_id u = record u { role_ids = select (λ i. not (i == role_id)) u.role_ids }

-- `delete`: the row goes, and by ON DELETE CASCADE its links.
unfoldable pub remove : Role → Exec Db (Unit {0})
remove role db = (
  ok tt,
  record db {
    roles = record {
      rows = delete (λ o. o.id == role.id) db.roles.rows;
      next_id = db.roles.next_id;
    };
    users = record {
      rows = update (λ u. true) (drop_link role.id) db.users.rows;
      next_id = db.users.next_id;
    };
  },
)

-- PermissionRepository.get
unfoldable pub get_permission : String → String → Exec Db (Option Permission)
get_permission resource action = read (λ db.
    one_or_none
      (select (λ p. str_eq p.resource resource && str_eq p.action action) db.permissions.rows))

-- ORDER BY a text, here in the order of code points
unfoldable pub list_all : Exec Db (List Role)
list_all = read (λ db. ok (sort_by (λ r s. str_le r.name s.name) db.roles.rows))

abbrev pub permission_le : Permission → Permission → Bool
permission_le p q =
    if str_eq p.resource q.resource then str_le p.action q.action else str_le p.resource q.resource

-- PermissionRepository.list_all
unfoldable pub list_permissions : Exec Db (List Permission)
list_permissions = read (λ db. ok (sort_by permission_le db.permissions.rows))
