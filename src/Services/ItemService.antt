-- ===== src/Services/ItemService.antt =====
-- app/services/item_service.py, with ItemCreate and ItemUpdate of app/schemas/item.py. The model of
-- an expected version that no client sends is `none`.
pub mod Versions
pub mod Owners
mod Tests
use fastapi_template.Prelude.{ℕ, String, not, Option, none, some, List, [], ◌∷◌, ◌==◌}
use fastapi_template.Errors.{
  item_not_found, precondition_failed_error, number, domain_error_of, Exception, domain,
  not_found_of,
}
use fastapi_template.Models.{Item, Db}
use fastapi_template.Exec.{Exec, pure, refuse_if, ◌>>=◌, ◌>>◌}
use fastapi_template.Services.Support.{or_not_found}
use fastapi_template.Repositories.Items

pub record ItemCreate : Type 0 where
  pub title : String
  pub description : Option String

-- `none` is a field that was not sent; a title is never null, a description may be.
pub record ItemUpdate : Type 0 where
  pub title : Option String
  pub description : Option (Option String)

abbrev pub item_missing : Exception
item_missing = not_found_of "Item not found" item_not_found

abbrev pub stale_read : ℕ → ℕ → Exception
stale_read expected current = domain (
    domain_error_of precondition_failed_error "This item changed since you read it" none
      (("expected", number expected) ∷ ("current", number current) ∷ []))

unfoldable pub list_for_owner : ℕ → ℕ → ℕ → Exec Db (List Item × ℕ)
list_for_owner owner_id limit offset = do
  found ← Items.list_for_owner owner_id limit offset
  total ← Items.count_for_owner owner_id
  pure (found, total)

-- The column `version` starts at 1.
unfoldable pub create : ℕ → ItemCreate → Exec Db Item
create owner_id sent = Items.create (λ id. record {
  id = id;
  title = sent.title;
  description = sent.description;
  owner_id = owner_id;
  deleted_at = none;
  version = 1;
})

unfoldable pub get_for_owner : ℕ → ℕ → Exec Db Item
get_for_owner item_id owner_id = do
  found ← Items.get_for_owner item_id owner_id
  or_not_found found "Item not found" item_not_found

abbrev pub refuse_stale : Option ℕ → Item → Exec Db (Unit {0})
refuse_stale none item = pure tt
refuse_stale (some expected) item =
    refuse_if (not (item.version == expected)) (stale_read expected item.version)

-- `_at_version`
unfoldable pub at_version : ℕ → ℕ → Option ℕ → Exec Db Item
at_version item_id owner_id expected_version = do
  item ← get_for_owner item_id owner_id
  refuse_stale expected_version item
  pure item

abbrev pub sent_or : {A : Type 0} → Option A → A → A
sent_or none old = old
sent_or (some new) old = new

-- for field, value in data.model_dump(exclude_unset=True).items(): setattr(item, field, value)
abbrev pub changed : ItemUpdate → Item → Item
changed sent item = record item {
  title = sent_or sent.title item.title;
  description = sent_or sent.description item.description;
}

unfoldable pub update : ℕ → ℕ → ItemUpdate → Option ℕ → Exec Db Item
update item_id owner_id sent expected_version = do
  item ← at_version item_id owner_id expected_version
  Items.save (changed sent item)

unfoldable pub delete : ℕ → ℕ → Option ℕ → ℕ → Exec Db (Unit {0})
delete item_id owner_id expected_version now = do
  item ← at_version item_id owner_id expected_version
  Items.soft_delete item now
