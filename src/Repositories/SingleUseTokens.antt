-- ===== src/Repositories/SingleUseTokens.antt =====
-- app/repositories/single_use_token_repo.py, with the unique constraint on `token_hash`.
use fastapi_template.Prelude.{
  ℕ, String, Bool, true, false, ◌&&◌, ◌||◌, Option, none, some, List, [], ◌∷◌, str_eq, ltb, ◌==◌,
  if◌then◌else◌, any, select, update, delete, count,
}
use fastapi_template.Errors.{integrity_error, ok, err}
use fastapi_template.Models.{TokenPurpose, purpose_eq, SingleUseToken, Table, insert_row, Db}
use fastapi_template.Exec.{Exec, read}
use fastapi_template.Repositories.Base.{one_or_none}
use fastapi_template.Repositories.Users.{unique_violation}

abbrev pub is_unused : Option ℕ → Bool
is_unused none = true
is_unused (some at) = false

abbrev pub is_active_token : String → TokenPurpose → ℕ → SingleUseToken → Bool
is_active_token token_hash purpose now t =
    str_eq t.token_hash token_hash
    && purpose_eq t.purpose purpose
    && is_unused t.used_at
    && ltb now t.expires_at

abbrev pub with_tokens : Db → Table SingleUseToken → Db
with_tokens db t = record db { single_use_tokens = t }

unfoldable pub create : (ℕ → SingleUseToken) → Exec Db SingleUseToken
create make db =
    let token = make db.single_use_tokens.next_id in
    if any (λ t. str_eq t.token_hash token.token_hash) db.single_use_tokens.rows
    then (err (integrity_error unique_violation), db)
    else (ok token, with_tokens db (insert_row make db.single_use_tokens))

unfoldable pub get_active : String → TokenPurpose → ℕ → Exec Db (Option SingleUseToken)
get_active token_hash purpose now =
    read (λ db.
      one_or_none (select (is_active_token token_hash purpose now) db.single_use_tokens.rows))

abbrev pub issued_at : SingleUseToken → ℕ
issued_at t = elim t.created_at [ none ↦ 0 | some stamp ↦ stamp.at ]

abbrev pub is_for : ℕ → TokenPurpose → SingleUseToken → Bool
is_for user_id purpose t = t.user_id == user_id && purpose_eq t.purpose purpose

-- ORDER BY created_at DESC, id DESC: the later of two rows
abbrev pub is_later : SingleUseToken → SingleUseToken → Bool
is_later s t = ltb (issued_at t) (issued_at s) || (issued_at t == issued_at s && ltb t.id s.id)

abbrev pub latest : Option SingleUseToken → List SingleUseToken → Option SingleUseToken
latest best [] = best
latest none (t ∷ ts) = latest (some t) ts
latest (some b) (t ∷ ts) = latest (some (if is_later t b then t else b)) ts

unfoldable pub latest_for : ℕ → TokenPurpose → Exec Db (Option SingleUseToken)
latest_for user_id purpose =
    read (λ db. ok (latest none (select (is_for user_id purpose) db.single_use_tokens.rows)))

abbrev pub used : ℕ → SingleUseToken → SingleUseToken
used now t = record t { used_at = some now }

abbrev pub is_token : SingleUseToken → SingleUseToken → Bool
is_token token t = t.id == token.id

unfoldable pub mark_used : SingleUseToken → ℕ → Exec Db (Unit {0})
mark_used token now db = (
  ok tt,
  with_tokens db (record {
    rows = update (is_token token) (used now) db.single_use_tokens.rows;
    next_id = db.single_use_tokens.next_id;
  }),
)

abbrev pub is_unused_for : ℕ → TokenPurpose → SingleUseToken → Bool
is_unused_for user_id purpose t = is_for user_id purpose t && is_unused t.used_at

unfoldable pub revoke_all_for : ℕ → TokenPurpose → ℕ → Exec Db ℕ
revoke_all_for user_id purpose now db = (
  ok (count (is_unused_for user_id purpose) db.single_use_tokens.rows),
  with_tokens db (record {
    rows = update (is_unused_for user_id purpose) (used now) db.single_use_tokens.rows;
    next_id = db.single_use_tokens.next_id;
  }),
)

abbrev pub has_expired : ℕ → SingleUseToken → Bool
has_expired now t = ltb t.expires_at now

unfoldable pub delete_expired : ℕ → Exec Db ℕ
delete_expired now db = (
  ok (count (has_expired now) db.single_use_tokens.rows),
  with_tokens db (record {
    rows = delete (has_expired now) db.single_use_tokens.rows;
    next_id = db.single_use_tokens.next_id;
  }),
)
