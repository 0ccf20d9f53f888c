-- ===== src/Repositories/Idempotency.antt =====
-- app/repositories/idempotency_repo.py, with the unique constraint on (user_id, key) of
-- app/models/idempotency_key.py.
use fastapi_template.Prelude.{
  ℕ, String, Bool, true, ◌&&◌, Option, none, some, str_eq, ◌==◌, if◌then◌else◌, any, select, update,
  delete,
}
use fastapi_template.Errors.{status_code, ok}
use fastapi_template.Models.{IdempotencyKey, Table, insert_row, Db}
use fastapi_template.Exec.{Exec, read}
use fastapi_template.Repositories.Base.{one_or_none, delete_batch_before}

abbrev pub is_entry : ℕ → String → IdempotencyKey → Bool
is_entry user_id key e = e.user_id == user_id && str_eq e.key key

unfoldable pub get : ℕ → String → Exec Db (Option IdempotencyKey)
get user_id key = read (λ db. one_or_none (select (is_entry user_id key) db.idempotency_keys.rows))

abbrev pub with_keys : Db → Table IdempotencyKey → Db
with_keys db t = record db { idempotency_keys = t }

-- `claim`: the INSERT in a savepoint, which is rolled back where the constraint refuses it.
unfoldable pub claim : (ℕ → IdempotencyKey) → Exec Db (Option IdempotencyKey)
claim make db =
    let entry = make db.idempotency_keys.next_id in
    if any (is_entry entry.user_id entry.key) db.idempotency_keys.rows
    then (ok none, db)
    else (ok (some entry), with_keys db (insert_row make db.idempotency_keys))

abbrev pub same_id_as : IdempotencyKey → IdempotencyKey → Bool
same_id_as entry e = e.id == entry.id

-- The flush of one changed row.
abbrev pub flush_entry : IdempotencyKey → (IdempotencyKey → IdempotencyKey) → Db → Db
flush_entry entry change db = with_keys db (record {
  rows = update (same_id_as entry) change db.idempotency_keys.rows;
  next_id = db.idempotency_keys.next_id;
})

abbrev pub restarted : String → ℕ → IdempotencyKey → IdempotencyKey
restarted request_hash now e = record e {
  request_hash = request_hash;
  created_at = some (record { at = now; aware = true });
  status_code = none;
  response_body = none;
  content_type = none;
  completed_at = none;
}

unfoldable pub restart : IdempotencyKey → String → ℕ → Exec Db (Unit {0})
restart entry request_hash now db = (ok tt, flush_entry entry (restarted request_hash now) db)

abbrev pub completed : ℕ → String → Option String → ℕ → IdempotencyKey → IdempotencyKey
completed status_code body content_type completed_at e = record e {
  status_code = some status_code;
  response_body = some body;
  content_type = content_type;
  completed_at = some completed_at;
}

unfoldable pub complete : IdempotencyKey → ℕ → String → Option String → ℕ → Exec Db (Unit {0})
complete entry status_code body content_type completed_at db =
    (ok tt, flush_entry entry (completed status_code body content_type completed_at) db)

unfoldable pub release : IdempotencyKey → Exec Db (Unit {0})
release entry db = (
  ok tt,
  with_keys db (record {
    rows = delete (same_id_as entry) db.idempotency_keys.rows;
    next_id = db.idempotency_keys.next_id;
  }),
)

-- `created_at` of a stored row; the column has a server default.
abbrev pub created_moment : IdempotencyKey → ℕ
created_moment e = elim e.created_at [ none ↦ 0 | some stamp ↦ stamp.at ]

unfoldable pub delete_batch_created_before : ℕ → ℕ → Exec Db ℕ
delete_batch_created_before cutoff batch_size db =
    let (n, t) =
      delete_batch_before (λ e. e.id) created_moment cutoff batch_size db.idempotency_keys in
    (ok n, with_keys db t)
