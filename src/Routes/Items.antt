-- ===== src/Routes/Items.antt =====
-- app/api/v1/routes/items.py
pub mod Tagged
use fastapi_template.Prelude.{ℕ, String, Option, some, []}
use fastapi_template.Models.{Item}
use fastapi_template.Exec.{pure, ◌>>=◌, ◌>>◌}
use fastapi_template.Routes.{
  Setting, Caller, PageParams, no_content, item_read, item_page, protected, Answer,
}
use fastapi_template.Features.{items_feature}
use fastapi_template.Http.Concurrency.{etag_for, require_if_match}
use fastapi_template.Services.ItemService.{ItemCreate, ItemUpdate}
use fastapi_template.Services.AuthService.{of_result}
use fastapi_template.Services.ItemService

module _ (s : Setting) (caller : Caller s.deployment.crypto.Text) where
  -- `_tagged`
  abbrev pub tagged : Item → Answer s caller
  tagged item = pure (item_read item (etag_for s.decimal item.version))

  unfoldable pub list_items : PageParams → Answer s caller
  list_items page = protected s caller (some items_feature) [] (λ actor. do
    found ← ItemService.list_for_owner actor.user.id page.limit page.offset
    pure (item_page found.0 found.1 page))

  unfoldable pub create_item : ItemCreate → Answer s caller
  create_item sent =
      protected s caller (some items_feature) []
        (λ actor. do item ← ItemService.create actor.user.id sent; tagged item)

  unfoldable pub get_item : ℕ → Answer s caller
  get_item item_id =
      protected s caller (some items_feature) []
        (λ actor. do item ← ItemService.get_for_owner item_id actor.user.id; tagged item)

  unfoldable pub update_item : ℕ → ItemUpdate → Option String → Answer s caller
  update_item item_id sent if_match = protected s caller (some items_feature) [] (λ actor. do
    version ← of_result (require_if_match s.decimal if_match)
    item ← ItemService.update item_id actor.user.id sent version
    tagged item)

  unfoldable pub delete_item : ℕ → Option String → ℕ → Answer s caller
  delete_item item_id if_match now = protected s caller (some items_feature) [] (λ actor. do
    version ← of_result (require_if_match s.decimal if_match)
    ItemService.delete item_id actor.user.id version now
    pure no_content)
