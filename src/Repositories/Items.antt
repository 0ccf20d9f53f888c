-- ===== src/Repositories/Items.antt =====
-- app/repositories/item_repo.py. Each UPDATE of an item checks and raises its version
-- (VersionMixin of app/db/mixins.py).
use fastapi_template.Prelude.{
  ℕ, ◌+◌, Option, none, some, Bool, ◌&&◌, List, [], str_eq, opt_str_eq, opt_eq, select, update,
  count, order_by, take, drop, any, ◌==◌, if◌then◌else◌,
}
use fastapi_template.Errors.{Exception, ok, err, domain, domain_error_of, precondition_failed_error}
use fastapi_template.Exec.{Exec, read}
use fastapi_template.Models.{Item, is_active, insert_row, Db}
use fastapi_template.Repositories.Base.{one_or_none}

abbrev pub is_owned : ℕ → Item → Bool
is_owned owner_id i = i.owner_id == owner_id && is_active i.deleted_at

unfoldable pub list_for_owner : ℕ → ℕ → ℕ → Exec Db (List Item)
list_for_owner owner_id limit offset = read (λ db.
    ok (take limit (drop offset (order_by (λ i. i.id) (select (is_owned owner_id) db.items.rows)))))

unfoldable pub count_for_owner : ℕ → Exec Db ℕ
count_for_owner owner_id = read (λ db. ok (count (is_owned owner_id) db.items.rows))

unfoldable pub get_for_owner : ℕ → ℕ → Exec Db (Option Item)
get_for_owner item_id owner_id =
    read (λ db. one_or_none (select (λ i. i.id == item_id && is_owned owner_id i) db.items.rows))

abbrev pub with_items : Db → List Item → Db
with_items db rows = record db { items = record { rows = rows; next_id = db.items.next_id } }

unfoldable pub create : (ℕ → Item) → Exec Db Item
create make db = (ok (make db.items.next_id), record db { items = insert_row make db.items })

abbrev pub lost_update : Exception
lost_update = domain (
    domain_error_of precondition_failed_error "This item changed while you were editing it" none [])

abbrev pub is_version_of : Item → Item → Bool
is_version_of item o = o.id == item.id && o.version == item.version

abbrev pub bumped : Item → Item
bumped item = record item { version = item.version + 1 }

-- Nothing to flush: every column is as it was loaded.
abbrev pub is_unchanged : Item → Item → Bool
is_unchanged item o =
    is_version_of item o
    && str_eq o.title item.title
    && opt_str_eq o.description item.description
    && opt_eq o.deleted_at item.deleted_at

-- `save`: without a change there is no UPDATE. Otherwise the flush writes the row where id and version are those that were read, and
-- `_flush` turns StaleDataError into a failed precondition.
unfoldable pub save : Item → Exec Db Item
save item db =
    if any (is_unchanged item) db.items.rows
    then (ok item, db)
    else if any (is_version_of item) db.items.rows
    then (
      ok (bumped item),
      with_items db (update (is_version_of item) (λ o. bumped item) db.items.rows),
    )
    else (err lost_update, db)

abbrev pub mark_deleted : ℕ → Item → Item
mark_deleted now i = record i { deleted_at = some now }

unfoldable pub soft_delete : Item → ℕ → Exec Db (Unit {0})
soft_delete item now db =
    if any (is_version_of item) db.items.rows
    then (
      ok tt,
      with_items db
          (update (is_version_of item) (λ o. bumped (mark_deleted now item)) db.items.rows),
    )
    else (err lost_update, db)

unfoldable pub soft_delete_for_owner : ℕ → ℕ → Exec Db (Unit {0})
soft_delete_for_owner owner_id now db = (
  ok tt,
  with_items db (update (is_owned owner_id) (λ i. bumped (mark_deleted now i)) db.items.rows),
)
