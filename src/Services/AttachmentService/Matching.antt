-- ===== src/Services/AttachmentService/Matching.antt =====
-- The files of app/services/attachment_service.py and the rows of its table, across requests.
pub mod Adding
pub mod Removing
pub mod Sessions
use fastapi_template.Prelude.{
  ℕ, String, ◌≡◌, refl, sym, inl, inr, Bool, true, false, Option, none, some, arith, str_eq, eq_iff,
  ltb, ◌==◌, if◌then◌else◌, Bool-cases, length, any, All, select, first, select_none, Bytes,
}
use fastapi_template.Models.{Attachment, Db}
use fastapi_template.Storage.{Storage, IsStore}
use fastapi_template.Services.AttachmentService.Requests.{Site}
use fastapi_template.Repositories.Unique.{Apart}
use fastapi_template.Repositories.Attachments

abbrev pub same_key : Attachment → Attachment → Bool
same_key a b = str_eq a.key b.key

abbrev pub same_id : Attachment → Attachment → Bool
same_id a b = a.id == b.id

abbrev pub size_of : Option Attachment → Option ℕ
size_of none = none
size_of (some a) = some a.size_bytes

-- The size that the table has for a key
abbrev pub recorded : String → Db → Option ℕ
recorded key db = size_of (first (select (Attachments.has_key key) db.attachments.rows))

-- The unique constraints, and the sequence of the ids
pub record IsKept (db : Db) : Type 0 where
  pub keys_apart : Apart same_key db.attachments.rows
  pub ids_apart : Apart same_id db.attachments.rows
  pub below : All (λ a. ltb a.id db.attachments.next_id ≡ true) db.attachments.rows

abbrev pub length_of : Option Bytes → Option ℕ
length_of none = none
length_of (some content) = some (length content)

-- Each key has a file exactly where it has a row, of the row's size, and the store takes the keys.
pub record IsMatched {S : Type 0} (storage : Storage S) (store : IsStore storage) (site : Site S)
    : Type 0 where
  pub kept : IsKept site.db
  pub keys : All (λ a. store.IsKey a.key) site.db.attachments.rows
  pub sizes : (key : String) → length_of (store.view site.files key) ≡ recorded key site.db

pub str_eq_sym : (s t : String) → str_eq s t ≡ str_eq t s
str_eq_sym s t = ground (arith, eq_iff s t, eq_iff t s)

module _ {S : Type 0} (storage : Storage S) (store : IsStore storage) where
  pub recorded_fresh :
      (key : String) (db : Db)
      → any (Attachments.has_key key) db.attachments.rows ≡ false
      → recorded key db ≡ none
  recorded_fresh key db fresh =
      rw (select_none (Attachments.has_key key) db.attachments.rows fresh) refl

  -- Files of which a key without a row is clear
  pub IsMatched-cleared :
      (site : Site S) (key : String) (files : S)
      → IsMatched storage store site
      → any (Attachments.has_key key) site.db.attachments.rows ≡ false
      → ((j : String)
          → store.view files j ≡ (if str_eq j key then none else store.view site.files j))
      → IsMatched storage store (record { db = site.db; files = files })
  IsMatched-cleared site key files m fresh cleared = record {
    kept = m.kept;
    keys = m.keys;
    sizes = λ j. elim (Bool-cases (str_eq j key)) [
      | inr other ↦ rw (cleared j, other) (m.sizes j)
      | inl same ↦
          rw (cleared j, same) (sym (rw ((eq_iff j key).0 same) (recorded_fresh key site.db fresh)))
    ];
  }
