-- ===== src/Services/AttachmentService/Matching/Sessions.antt =====
-- Requests to app/services/attachment_service.py, in any order.
use fastapi_template.Prelude.{
  ℕ, String, ◌≡◌, refl, ◌∙◌, inl, inr, Bool, false, Option, none, some, arith, Option-cases, length,
  any, select, first, Bytes,
}
use fastapi_template.Errors.{ok}
use fastapi_template.Models.{Attachment}
use fastapi_template.Services.AttachmentService.{Upload, Acceptance, add, read_file, remove}
use fastapi_template.Storage.{Storage, IsStore}
use fastapi_template.Hooks.{step}
use fastapi_template.Services.AttachmentService.Requests.{Site, request}
use fastapi_template.Services.AttachmentService.Matching.{same_key, same_id, length_of, IsMatched}
use fastapi_template.Services.AttachmentService.Matching.Adding.{add-IsMatched}
use fastapi_template.Services.AttachmentService.Matching.Removing.{key_separates, remove-IsMatched}
use fastapi_template.Repositories.Base.{one_or_none}
use fastapi_template.Repositories.Unique.{one_or_none-select, first-found, All-first}
use text.Mathlib.TextEquality.{eq_iff}
use fastapi_template.Repositories.Attachments
use fastapi_template.Services.AttachmentService

module _ {S : Type 0} (limits : Acceptance) (storage : Storage S) (store : IsStore storage) where
  -- One request, committed or rolled back. The key of a new attachment is fresh, as that of uuid4
  -- is, and the store takes it.
  pub data Step (site : Site S) : Site S → Type 0 where
    adds :
        (item_id owner_id : ℕ) (upload : Upload) (key : String) (commits : Bool)
        → store.IsKey key
        → any (Attachments.has_key key) site.db.attachments.rows ≡ false
        → upload.ending ≡ none
        → Step site
            (request storage commits (add limits storage item_id owner_id upload key) site).1
    removes :
        (attachment_id owner_id : ℕ) (commits : Bool)
        → Step site (request storage commits (remove storage attachment_id owner_id) site).1

  pub data Reach (start : Site S) : Site S → Type 0 where
    here : Reach start start
    next : {site after : Site S} → Reach start site → Step site after → Reach start after

  Step-IsMatched :
      {site after : Site S}
      → Step site after
      → IsMatched storage store site
      → IsMatched storage store after
  Step-IsMatched {site} (adds item_id owner_id upload key commits k fresh ends_well) m =
      add-IsMatched limits storage store upload key site m k fresh item_id owner_id commits
        ends_well
  Step-IsMatched {site} (removes attachment_id owner_id commits) m =
      remove-IsMatched storage store site m attachment_id owner_id commits

  -- Over a store that keeps its promises, after any requests that add or remove attachments, each
  -- committed, refused or rolled back, and whether or not the database takes the COMMIT, every key
  -- has a file exactly where it has a row, and of the size in the row, if that is so at the start,
  -- the key of each new attachment is fresh, and no stream of an upload fails.
  pub Reach-IsMatched :
      {start site : Site S}
      → IsMatched storage store start
      → Reach start site
      → IsMatched storage store site
  Reach-IsMatched m here = m
  Reach-IsMatched m (next r step) = Step-IsMatched step (Reach-IsMatched m r)

  of_length :
      (o : Option Bytes) (n : ℕ)
      → length_of o ≡ some n
      → (content : Bytes) × (o ≡ some content) × (length content ≡ n)
  of_length none n h = absurd (cc)
  of_length (some content) n h = (content, refl, ground arith)

  -- Over a store that keeps its promises, and where files and rows match, an attachment that its
  -- owner finds can be read, and what is read has the size in its row.
  pub read_file-IsWhole :
      (site : Site S) (attachment_id owner_id : ℕ) (a : Attachment)
      → IsMatched storage store site
      → (AttachmentService.get_for_owner attachment_id owner_id site.db).0 ≡ ok a
      → (content : Bytes) × (read_file storage a site.files ≡ (ok content, site.files))
        × (length content ≡ a.size_bytes)
  unfolding AttachmentService.get_for_owner Attachments.get_for_owner read_file
  read_file-IsWhole site attachment_id owner_id a m h =
      let rows = site.db.attachments.rows in
      let query = Attachments.is_attachment_of site.db.items.rows attachment_id owner_id in
      let single : one_or_none (select query rows) ≡ ok (first (select query rows)) =
        one_or_none-select same_id query rows (λ r s hr hs. ground arith) m.kept.ids_apart in
      let found : first (select query rows) ≡ some a =
        elim (Option-cases (first (select query rows))) [
          | inl missing ↦ absurd (ground (arith, single, missing, h))
          | inr (b, found) ↦ ground (arith, single, found, h)
        ] in
      let by_key : first (select (Attachments.has_key a.key) rows) ≡ some a =
        first-found same_key (Attachments.has_key a.key) query rows a (key_separates a.key)
          m.kept.keys_apart found ((eq_iff a.key a.key).1 refl) in
      let (content, there, whole) =
        of_length (store.view site.files a.key) a.size_bytes (m.sizes a.key ∙ rw by_key refl) in
      (
        content,
        store.open_reads a.key content site.files
            (All-first (λ r. store.IsKey r.key) query rows a m.keys found) there,
        whole,
      )
