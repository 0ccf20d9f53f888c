-- ===== src/Repositories/Users.antt =====
-- app/repositories/user_repo.py, with the partial unique index `uq_users_email_active` of
-- app/models/user.py. Rows of user_roles are the `role_ids` of an account.
use fastapi_template.Prelude.{
  ℕ, String, Bool, true, not, ◌&&◌, Option, some, List, map, str_eq, ◌==◌, if◌then◌else◌, take,
  drop, any, select, update, count, order_by,
}
use fastapi_template.Errors.{integrity_error, other_exception, ok, err}
use fastapi_template.Models.{Table, insert_row, Db, Role, UserRow, User, is_active}
use fastapi_template.Exec.{Exec, read}
use fastapi_template.Repositories.Base.{one_or_none, map_result}
use mathlib.Core.Option

abbrev pub unique_violation : String
unique_violation = "23505"

abbrev pub holds_role : UserRow → ℕ → Bool
holds_role row role_id = any (λ i. i == role_id) row.role_ids

-- The relationship `roles`, through user_roles.
unfoldable pub roles_of : Db → UserRow → List Role
roles_of db row = select (λ role. holds_role row role.id) db.roles.rows

abbrev pub load : Db → UserRow → User
load db row = record { row = row; roles = roles_of db row }

abbrev pub has_email : String → UserRow → Bool
has_email email u = str_eq u.email email && is_active u.deleted_at

abbrev pub has_id : ℕ → UserRow → Bool
has_id user_id u = u.id == user_id && is_active u.deleted_at

abbrev pub has_role : ℕ → UserRow → Bool
has_role role_id u = holds_role u role_id && is_active u.deleted_at

-- Two rows that the partial unique index keeps apart.
abbrev pub clashes : UserRow → UserRow → Bool
clashes new old = is_active new.deleted_at && has_email new.email old

unfoldable pub get_by_email : String → Exec Db (Option User)
get_by_email email =
    read (λ db.
      map_result (Option.map (load db)) (one_or_none (select (has_email email) db.users.rows)))

unfoldable pub get : ℕ → Exec Db (Option User)
get user_id =
    read (λ db.
      map_result (Option.map (load db)) (one_or_none (select (has_id user_id) db.users.rows)))

unfoldable pub list_all : ℕ → ℕ → Exec Db (List User)
list_all limit offset = read (λ db. ok (
    map (load db) (
      take limit
        (drop offset (order_by (λ u. u.id) (select (λ u. is_active u.deleted_at) db.users.rows))))))

unfoldable pub count_all : Exec Db ℕ
count_all = read (λ db. ok (count (λ u. is_active u.deleted_at) db.users.rows))

unfoldable pub count_for_role : ℕ → Exec Db ℕ
count_for_role role_id = read (λ db. ok (count (has_role role_id) db.users.rows))

unfoldable pub list_for_role : ℕ → Exec Db (List User)
list_for_role role_id =
    read (λ db. ok (map (load db) (order_by (λ u. u.id) (select (has_role role_id) db.users.rows))))

-- Closed accounts count too.
unfoldable pub exists_any : Exec Db Bool
exists_any = read (λ db. ok (any (λ u. true) db.users.rows))

abbrev pub with_users : Db → Table UserRow → Db
with_users db t = record db { users = t }

-- `create`: the INSERT fails on the unique index, or the row takes the next id.
unfoldable pub create : (ℕ → UserRow) → Exec Db User
create make db =
    let row = make db.users.next_id in
    if any (clashes row) db.users.rows
    then (err (integrity_error unique_violation), db)
    else (ok (load db row), with_users db (insert_row make db.users))

-- `save`: the UPDATE of one row fails on the unique index, or where the row is gone. The statement
-- sets the columns that the request changed; since the row is as the request read it, the whole row is
-- written.
unfoldable pub save : User → Exec Db User
save user db =
    if any (λ o. not (o.id == user.id) && clashes user.row o) db.users.rows
    then (err (integrity_error unique_violation), db)
    else if any (λ o. o.id == user.id) db.users.rows
    then (
      ok (load db user.row),
      with_users db (record {
        rows = update (λ o. o.id == user.id) (λ o. user.row) db.users.rows;
        next_id = db.users.next_id;
      }),
    )
    else (err other_exception, db)

abbrev pub is_row_of : User → UserRow → Bool
is_row_of user o = o.id == user.id

-- SoftDeleteMixin.mark_deleted
abbrev pub mark_deleted : ℕ → UserRow → UserRow
mark_deleted now o = record o { deleted_at = some now }

unfoldable pub soft_delete : User → ℕ → Exec Db (Unit {0})
soft_delete user now db = (
  ok tt,
  with_users db (record {
    rows = update (is_row_of user) (mark_deleted now) db.users.rows;
    next_id = db.users.next_id;
  }),
)
