-- ===== src/Repositories/Preferences.antt =====
-- app/repositories/preferences_repo.py, with the unique constraint on `user_id`.
use fastapi_template.Prelude.{ℕ, Bool, Option, ◌==◌, if◌then◌else◌, any, select, update}
use fastapi_template.Errors.{integrity_error, other_exception, ok, err}
use fastapi_template.Models.{UserPreferences, Table, insert_row, Db}
use fastapi_template.Exec.{Exec, read}
use fastapi_template.Repositories.Base.{one_or_none}
use fastapi_template.Repositories.Users.{unique_violation}

abbrev pub is_for_user : ℕ → UserPreferences → Bool
is_for_user user_id p = p.user_id == user_id

unfoldable pub get_for_user : ℕ → Exec Db (Option UserPreferences)
get_for_user user_id = read (λ db. one_or_none (select (is_for_user user_id) db.preferences.rows))

abbrev pub with_preferences : Db → Table UserPreferences → Db
with_preferences db t = record db { preferences = t }

unfoldable pub create : (ℕ → UserPreferences) → Exec Db UserPreferences
create make db =
    let row = make db.preferences.next_id in
    if any (is_for_user row.user_id) db.preferences.rows
    then (err (integrity_error unique_violation), db)
    else (ok row, with_preferences db (insert_row make db.preferences))

abbrev pub is_row : UserPreferences → UserPreferences → Bool
is_row stored p = p.id == stored.id

-- The UPDATE of one row, whose `user_id` never changes.
unfoldable pub save : UserPreferences → Exec Db UserPreferences
save stored db =
    if any (is_row stored) db.preferences.rows
    then (
      ok stored,
      with_preferences db (record {
        rows = update (is_row stored) (λ p. stored) db.preferences.rows;
        next_id = db.preferences.next_id;
      }),
    )
    else (err other_exception, db)
