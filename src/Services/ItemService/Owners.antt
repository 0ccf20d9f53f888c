-- ===== src/Services/ItemService/Owners.antt =====
-- Nobody reaches another account's items through app/services/item_service.py.
use fastapi_template.Prelude.{
  ℕ, ◌≡◌, refl, ◌≢◌, inl, inr, true, Option, none, some, arith, ◌==◌, Bool-cases, any, select,
  update,
}
use fastapi_template.Models.{Item, Db}
use fastapi_template.Exec.{Exec, resume}
use fastapi_template.Services.ItemService.{ItemUpdate, changed}
use fastapi_template.Services.ItemService.Versions.{
  same_item, HasUniqueIds, is_item_of, found_item, at_version_of, at_version_lem,
}
use fastapi_template.Repositories.Unique.{first-select_holds, select-update_only}
use fastapi_template.Repositories.Items
use fastapi_template.Services.ItemService

module _ (item_id owner_id j : ℕ) (ne : j ≢ owner_id) (db : Db) (inv : HasUniqueIds db) where
  abbrev KeepsItems : Db → Type 0
  KeepsItems after =
      select (Items.is_owned j) after.items.rows ≡ select (Items.is_owned j) db.items.rows

  write_only :
      (row item new : Item)
      → found_item item_id owner_id db ≡ some row
      → Items.is_version_of item row ≡ true
      → new.owner_id ≡ owner_id
      → select (Items.is_owned j) (update (Items.is_version_of item) (λ o. new) db.items.rows)
        ≡ select (Items.is_owned j) db.items.rows
  write_only row item new found same owner =
      let mine : is_item_of item_id owner_id row ≡ true =
        first-select_holds (is_item_of item_id owner_id) db.items.rows row found in
      select-update_only same_item (Items.is_version_of item) (Items.is_owned j)
        (is_item_of item_id owner_id) (λ o. new) db.items.rows row (λ r s hr hs. ground arith) inv
        found same (ground (arith, mine)) (ground (arith, owner))

  saved-keeps :
      (sent : ItemUpdate) (row : Item)
      → found_item item_id owner_id db ≡ some row
      → KeepsItems (Items.save (changed sent row) db).1
  unfolding Items.save
  saved-keeps sent row found =
      let mine : is_item_of item_id owner_id row ≡ true =
        first-select_holds (is_item_of item_id owner_id) db.items.rows row found in
      elim (Bool-cases (any (Items.is_unchanged (changed sent row)) db.items.rows)) [
        | inl unchanged ↦ rw unchanged refl
        | inr edited ↦
            elim (Bool-cases (any (Items.is_version_of (changed sent row)) db.items.rows)) [
              | inr lost ↦ rw (edited, lost) refl
              | inl there ↦
                  rw (edited, there)
                    (write_only row (changed sent row) (Items.bumped (changed sent row)) found
                      (ground arith) (ground (arith, mine)))
            ]
      ]

  deleted-keeps :
      (now : ℕ) (row : Item)
      → found_item item_id owner_id db ≡ some row
      → KeepsItems (Items.soft_delete row now db).1
  unfolding Items.soft_delete
  deleted-keeps now row found =
      let mine : is_item_of item_id owner_id row ≡ true =
        first-select_holds (is_item_of item_id owner_id) db.items.rows row found in
      elim (Bool-cases (any (Items.is_version_of row) db.items.rows)) [
        | inr lost ↦ rw lost refl
        | inl there ↦ rw there (
            write_only row row (Items.bumped (Items.mark_deleted now row)) found (ground arith)
              (ground (arith, mine)))
      ]

  -- What follows the check of the version touches nothing of account `j`, if what it does does not.
  after_check :
      {A : Type 0} (expected : Option ℕ) (go : Item → Exec Db A)
      → ((row : Item) → found_item item_id owner_id db ≡ some row → KeepsItems (go row db).1)
      → (o : Option Item) → found_item item_id owner_id db ≡ o
      → KeepsItems (resume go (at_version_of expected o, db)).1
  after_check expected go keep none e = refl
  after_check none go keep (some row) e = keep row e
  after_check (some v) go keep (some row) e = elim (Bool-cases (row.version == v)) [
    | inl fresh ↦ rw fresh (keep row e)
    | inr stale ↦ rw stale refl
  ]

  -- With unique item ids, an update or a delete on behalf of one account, whatever it answers,
  -- leaves the open items of every other account as they were.
  pub writes-keep_others :
      (sent : ItemUpdate) (expected : Option ℕ) (now : ℕ)
      → (select
            (Items.is_owned j)
            (ItemService.update item_id owner_id sent expected db).1.items.rows
          ≡ select (Items.is_owned j) db.items.rows)
        × (select
              (Items.is_owned j)
              (ItemService.delete item_id owner_id expected now db).1.items.rows
            ≡ select (Items.is_owned j) db.items.rows)
  unfolding ItemService.update ItemService.delete
  writes-keep_others sent expected now = (
    rw (at_version_lem item_id owner_id expected db inv) (
        after_check expected (λ item. Items.save (changed sent item)) (saved-keeps sent)
          (found_item item_id owner_id db) refl),
    rw (at_version_lem item_id owner_id expected db inv) (
        after_check expected (λ item. Items.soft_delete item now) (deleted-keeps now)
          (found_item item_id owner_id db) refl),
  )
