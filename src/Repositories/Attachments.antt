-- ===== src/Repositories/Attachments.antt =====
use fastapi_template.Prelude.{
  ℕ, String, ◌≡◌, refl, ◌⊎◌, inl, inr, Bool, false, ◌&&◌, Option, List, str_eq, ◌==◌, if◌then◌else◌,
  Bool-cases, any, select, delete, order_by,
}
use fastapi_template.Errors.{Exception, integrity_error, ok, err}
use fastapi_template.Models.{Item, Attachment, insert_row, Db}
use fastapi_template.Exec.{Exec, read}
use fastapi_template.Repositories.Base.{one_or_none}
use fastapi_template.Repositories.Users.{unique_violation}
use fastapi_template.Repositories.Items

-- app/repositories/attachment_repo.py, with the unique constraint on `attachments.key` and the
-- foreign key to items.
abbrev pub foreign_key_violation : String
foreign_key_violation = "23503"

abbrev pub has_key : String → Attachment → Bool
has_key key a = str_eq a.key key

abbrev pub with_rows : Db → List Attachment → Db
with_rows db rows = record db {
  attachments = record { rows = rows; next_id = db.attachments.next_id };
}

unfoldable pub create : (ℕ → Attachment) → Exec Db Attachment
create make db =
    let a = make db.attachments.next_id in
    if any (has_key a.key) db.attachments.rows
    then (err (integrity_error unique_violation), db)
    else if any (λ i. i.id == a.item_id) db.items.rows
    then (ok a, record db { attachments = insert_row make db.attachments })
    else (err (integrity_error foreign_key_violation), db)

unfoldable pub list_for_item : ℕ → Exec Db (List Attachment)
list_for_item item_id =
    read (λ db. ok (order_by (λ a. a.id) (select (λ a. a.item_id == item_id) db.attachments.rows)))

-- The join with the one item of the attachment
abbrev pub is_attachment_of : List Item → ℕ → ℕ → Attachment → Bool
is_attachment_of items attachment_id owner_id a =
    a.id == attachment_id && any (λ i. i.id == a.item_id && Items.is_owned owner_id i) items

unfoldable pub get_for_owner : ℕ → ℕ → Exec Db (Option Attachment)
get_for_owner attachment_id owner_id = read (λ db.
    one_or_none
      (select (is_attachment_of db.items.rows attachment_id owner_id) db.attachments.rows))

unfoldable pub remove : Attachment → Exec Db (Unit {0})
remove a db = (ok tt, with_rows db (delete (λ o. o.id == a.id) db.attachments.rows))

pub create-cases :
    (make : ℕ → Attachment) (db : Db)
    → ((e : Exception) × (create make db ≡ (err e, db)))
      ⊎ ((any (has_key (make db.attachments.next_id).key) db.attachments.rows ≡ false)
          × (create make db ≡ (
            ok (make db.attachments.next_id),
            record db { attachments = insert_row make db.attachments },
          )))
unfolding create
create-cases make db =
    let a = make db.attachments.next_id in
    elim (Bool-cases (any (has_key a.key) db.attachments.rows)) [
      | inl taken ↦ inl (integrity_error unique_violation, rw taken refl)
      | inr fresh ↦ elim (Bool-cases (any (λ i. i.id == a.item_id) db.items.rows)) [
        | inl there ↦ inr (fresh, rw (fresh, there) refl)
        | inr gone ↦ inl (integrity_error foreign_key_violation, rw (fresh, gone) refl)
      ]
    ]
