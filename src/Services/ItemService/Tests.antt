-- ===== src/Services/ItemService/Tests.antt =====
-- Runs of app/services/item_service.py.
use fastapi_template.Prelude.{◌≡◌, refl, none, some, [], ◌∷◌, arith, select}
use fastapi_template.Models.{Item, Db, empty_db}
use fastapi_template.Services.ItemService.{ItemUpdate, get_for_owner, at_version}
use fastapi_template.Services.ItemService.Versions.{IsLocked, update-IsLocked}
use fastapi_template.Services.ItemService.Owners.{writes-keep_others}
use fastapi_template.Services.ItemService
use fastapi_template.Repositories.Items

abbrev poem : Item
poem = record {
  id = 1;
  title = "poem";
  description = none;
  owner_id = 1;
  deleted_at = none;
  version = 3;
}

abbrev tale : Item
tale = record poem { id = 2; title = "tale"; owner_id = 2; version = 1 }

abbrev shelf : Db
shelf = record empty_db { items = record { rows = poem ∷ tale ∷ []; next_id = 3 } }

abbrev retitled : ItemUpdate
retitled = record { title = some "ode"; description = none }

abbrev ode : Item
ode = record poem { title = "ode"; version = 4 }

update-IsLocked_example :
    IsLocked 1 1 retitled 3 shelf
      ((refl, tt), (tt, tt))
      ode
      (ItemService.update 1 1 retitled (some 3) shelf).1
      retitled
unfolding ItemService.update at_version get_for_owner Items.get_for_owner Items.save
update-IsLocked_example =
    update-IsLocked 1 1 retitled 3 shelf ((refl, tt), (tt, tt)) retitled ode refl

writes-keep_others_example :
    (select (Items.is_owned 2) (ItemService.update 1 1 retitled (some 3) shelf).1.items.rows
      ≡ tale ∷ [])
    × (select (Items.is_owned 2) (ItemService.delete 1 1 (some 3) 9 shelf).1.items.rows ≡ tale ∷ [])
writes-keep_others_example =
    writes-keep_others 1 1 2 (omega arith) shelf ((refl, tt), (tt, tt)) retitled (some 3) 9
