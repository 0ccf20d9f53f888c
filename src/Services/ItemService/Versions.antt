-- ===== src/Services/ItemService/Versions.antt =====
-- Optimistic locking in app/services/item_service.py.
use fastapi_template.Prelude.{
  ℕ, ◌+◌, ◌≡◌, refl, sym, ◌⊎◌, inl, inr, Bool, true, false, not, ◌&&◌, Option, none, some, arith,
  ◌==◌, if◌then◌else◌, Bool-cases, Option-cases, any, select, update, first,
}
use fastapi_template.Errors.{item_not_found, Result, ok, err}
use fastapi_template.Models.{Item, Db}
use fastapi_template.Exec.{Exec, pure, ◌>>=◌, ◌>>◌}
use fastapi_template.Services.Support.{or_not_found}
use fastapi_template.Services.ItemService.{
  ItemUpdate, item_missing, stale_read, get_for_owner, refuse_stale, at_version, changed,
}
use fastapi_template.Repositories.Unique.{
  Apart, Separates, one_or_none-select, first-select_holds, Apart-update, first-update,
}
use fastapi_template.Services.ItemService
use fastapi_template.Repositories.Items

abbrev pub same_item : Item → Item → Bool
same_item i j = i.id == j.id

abbrev pub HasUniqueIds : Db → Type 0
HasUniqueIds db = Apart same_item db.items.rows

abbrev pub is_item_of : ℕ → ℕ → Item → Bool
is_item_of item_id owner_id i = i.id == item_id && Items.is_owned owner_id i

pub is_item_of_separates :
    (item_id owner_id : ℕ) → Separates same_item (is_item_of item_id owner_id)
is_item_of_separates item_id owner_id i j hi hj = ground arith

abbrev pub found_item : ℕ → ℕ → Db → Option Item
found_item item_id owner_id db = first (select (is_item_of item_id owner_id) db.items.rows)

abbrev pub is_stale : Option ℕ → Item → Bool
is_stale none item = false
is_stale (some expected) item = not (item.version == expected)

-- What `_at_version` answers.
abbrev pub at_version_of : Option ℕ → Option Item → Result Item
at_version_of expected none = err item_missing
at_version_of none (some item) = ok item
at_version_of (some expected) (some item) =
    if not (item.version == expected) then err (stale_read expected item.version) else ok item

pub at_version_lem :
    (item_id owner_id : ℕ) (expected : Option ℕ) (db : Db)
    → HasUniqueIds db
    → at_version item_id owner_id expected db
      ≡ (at_version_of expected (found_item item_id owner_id db), db)
unfolding at_version get_for_owner Items.get_for_owner
at_version_lem item_id owner_id expected db inv =
    rw
      (one_or_none-select same_item (is_item_of item_id owner_id) db.items.rows
        (is_item_of_separates item_id owner_id) inv)
      (split expected (found_item item_id owner_id db))
  where
    split :
        (expected : Option ℕ) (o : Option Item)
        → ((or_not_found {S = Db} o "Item not found" item_not_found) >>= λ item.
              refuse_stale expected item >> pure item)
            db
          ≡ (at_version_of expected o, db)
    split expected none = refl
    split none (some item) = refl
    split (some v) (some item) = elim (Bool-cases (item.version == v)) [
      | inl fresh ↦ rw fresh refl
      | inr stale ↦ rw stale refl
    ]

-- The write of the version that was read.
abbrev pub written : Item → Db → Db
written item db =
    Items.with_items db (update (Items.is_version_of item) (λ o. Items.bumped item) db.items.rows)

pub written-HasUniqueIds :
    (item : Item) (db : Db) → HasUniqueIds db → HasUniqueIds (written item db)
written-HasUniqueIds item db inv =
    Apart-update same_item (Items.is_version_of item) (λ o. Items.bumped item) db.items.rows
      (λ r s e. ground arith) inv

pub written-found :
    (item_id owner_id : ℕ) (row item : Item) (db : Db)
    → HasUniqueIds db
    → found_item item_id owner_id db ≡ some row
    → Items.is_version_of item row ≡ true
    → is_item_of item_id owner_id (Items.bumped item) ≡ true
    → found_item item_id owner_id (written item db) ≡ some (Items.bumped item)
written-found item_id owner_id row item db inv found same is_item =
    first-update same_item (Items.is_version_of item) (is_item_of item_id owner_id)
      (λ o. Items.bumped item) db.items.rows row (λ r s hr hs. ground arith) inv found same is_item

module _ (item_id owner_id : ℕ) (sent : ItemUpdate) (v : ℕ) (db : Db) (inv : HasUniqueIds db) where
  -- Nothing was changed, or the version moved on and nobody else writes over the one that was read.
  abbrev pub IsLocked : Item → Db → ItemUpdate → Type 0
  IsLocked item after later =
      ((item.version ≡ v) × (after ≡ db))
      ⊎ ((item.version ≡ v + 1)
          × (found_item item_id owner_id after ≡ some item)
          × (ItemService.update item_id owner_id later (some v) after
              ≡ (err (stale_read v (v + 1)), after)))

  abbrev saved : Item → Exec Db Item
  saved row = Items.save (changed sent row)

  locked :
      (row : Item)
      → found_item item_id owner_id db ≡ some row
      → (row.version == v) ≡ true
      → (later : ItemUpdate) (item : Item) → (saved row db).0 ≡ ok item
      → IsLocked item (saved row db).1 later
  unfolding Items.save ItemService.update
  locked row found fresh later item h =
      elim (Bool-cases (any (Items.is_unchanged (changed sent row)) db.items.rows)) [
        | inl unchanged ↦ rw unchanged (inl (ground (arith, unchanged, h, fresh), refl))
        | inr edited ↦
            elim (Bool-cases (any (Items.is_version_of (changed sent row)) db.items.rows)) [
              | inr lost ↦ absurd (ground (arith, edited, lost, h))
              | inl there ↦
                  let new : Item = Items.bumped (changed sent row) in
                  let same : new ≡ item = ground (arith, edited, there, h) in
                  let is_item : is_item_of item_id owner_id row ≡ true =
                    first-select_holds (is_item_of item_id owner_id) db.items.rows row found in
                  let now_found : found_item item_id owner_id (written (changed sent row) db)
                      ≡ some new =
                    written-found item_id owner_id row (changed sent row) db inv found
                      (ground arith) is_item in
                  rw (sym same, edited, there)
                    (inr (
                      ground (arith, fresh),
                      now_found,
                      rw
                          (
                            at_version_lem item_id owner_id (some v) (written (changed sent row) db)
                                (written-HasUniqueIds (changed sent row) db inv),
                            now_found,
                          )
                          (ground (arith, fresh)),
                    ))
            ]
      ]

  -- With unique item ids, an update that names the version it expects and succeeds either changed
  -- nothing, or raised the version by one, is what the owner then finds, and makes any update that
  -- still expects the old version fail with the conflict that names both versions, writing
  -- nothing.
  pub update-IsLocked :
      (later : ItemUpdate) (item : Item)
      → (ItemService.update item_id owner_id sent (some v) db).0 ≡ ok item
      → IsLocked item (ItemService.update item_id owner_id sent (some v) db).1 later
  unfolding ItemService.update
  update-IsLocked later item =
      rw (at_version_lem item_id owner_id (some v) db inv)
        (elim (Option-cases (found_item item_id owner_id db)) [
          | inl gone ↦ rw gone (λ h. absurd (cc))
          | inr (row, found) ↦ rw found (elim (Bool-cases (row.version == v)) [
            | inl fresh ↦ rw fresh (locked row found fresh later item)
            | inr stale ↦ rw stale (λ h. absurd (cc))
          ])
        ])
