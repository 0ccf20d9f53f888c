-- ===== src/Repositories/RefreshTokens.antt =====
-- app/repositories/refresh_token_repo.py, with the unique constraint on `token_hash`.
use fastapi_template.Prelude.{
  ℕ, String, Bool, true, false, ◌&&◌, Option, none, some, str_eq, ltb, leb, ◌==◌, if◌then◌else◌,
  any, select, update, delete, count,
}
use fastapi_template.Errors.{integrity_error, ok, err}
use fastapi_template.Models.{RefreshToken, Table, insert_row, Db}
use fastapi_template.Exec.{Exec, read}
use fastapi_template.Repositories.Base.{one_or_none}
use fastapi_template.Repositories.Users.{unique_violation}

abbrev pub is_open : Option ℕ → Bool
is_open none = true
is_open (some at) = false

abbrev pub is_active_refresh : String → ℕ → RefreshToken → Bool
is_active_refresh token_hash now t =
    str_eq t.token_hash token_hash && is_open t.revoked_at && ltb now t.expires_at

abbrev pub with_refresh : Db → Table RefreshToken → Db
with_refresh db t = record db { refresh_tokens = t }

unfoldable pub create : (ℕ → RefreshToken) → Exec Db RefreshToken
create make db =
    let token = make db.refresh_tokens.next_id in
    if any (λ t. str_eq t.token_hash token.token_hash) db.refresh_tokens.rows
    then (err (integrity_error unique_violation), db)
    else (ok token, with_refresh db (insert_row make db.refresh_tokens))

unfoldable pub get_active : String → ℕ → Exec Db (Option RefreshToken)
get_active token_hash now =
    read (λ db. one_or_none (select (is_active_refresh token_hash now) db.refresh_tokens.rows))

abbrev pub revoked : ℕ → RefreshToken → RefreshToken
revoked now t = record t { revoked_at = some now }

-- An UPDATE: the number of rows, and the table after it.
abbrev pub revoke_where : (RefreshToken → Bool) → ℕ → Exec Db ℕ
revoke_where p now db = (
  ok (count p db.refresh_tokens.rows),
  with_refresh db (record {
    rows = update p (revoked now) db.refresh_tokens.rows;
    next_id = db.refresh_tokens.next_id;
  }),
)

abbrev pub is_open_hash : String → RefreshToken → Bool
is_open_hash token_hash t = str_eq t.token_hash token_hash && is_open t.revoked_at

abbrev pub is_open_of : ℕ → RefreshToken → Bool
is_open_of user_id t = t.user_id == user_id && is_open t.revoked_at

unfoldable pub revoke : String → ℕ → Exec Db ℕ
revoke token_hash now = revoke_where (is_open_hash token_hash) now

unfoldable pub revoke_all_for_user : ℕ → ℕ → Exec Db ℕ
revoke_all_for_user user_id now = revoke_where (is_open_of user_id) now

abbrev pub has_expired : ℕ → RefreshToken → Bool
has_expired now t = leb t.expires_at now

unfoldable pub delete_expired : ℕ → Exec Db ℕ
delete_expired now db = (
  ok (count (has_expired now) db.refresh_tokens.rows),
  with_refresh db (record {
    rows = delete (has_expired now) db.refresh_tokens.rows;
    next_id = db.refresh_tokens.next_id;
  }),
)
