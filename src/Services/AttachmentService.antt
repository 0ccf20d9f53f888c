-- ===== src/Services/AttachmentService.antt =====
-- app/services/attachment_service.py: a request's session, the file store `S`, and the hooks that
-- wait for the session's outcome. A hook is the key that it deletes.
pub mod Filenames
pub mod Bounds
pub mod Accepted
pub mod Requests
pub mod Matching
mod Naming
pub mod Tests
unfoldable pub use Naming.*
use fastapi_template.Prelude.{
  ℕ, ◌+◌, not, Option, none, some, List, [], ◌∷◌, str_eq, ltb, if◌then◌else◌, length, any, Bytes,
  split_on, is_empty, stripped,
}
use fastapi_template.Errors.{
  item_not_found, attachment_not_found, attachment_type_refused, attachment_too_large,
  forbidden_error, payload_too_large_error, text, number, domain_error_of, Exception, domain, ok,
}
use fastapi_template.Models.{Attachment, Db}
use fastapi_template.Exec.{Exec, pure, refuse_if, ◌>>=◌, ◌>>◌}
use fastapi_template.Storage.{StoredFile, Chunks, done, raises, yields, does, Storage}
use fastapi_template.Hooks.{Pair, run_after_outcome}
use fastapi_template.Services.Support.{or_not_found}
use Prim.Native.Char.{Char, code}
use Prim.Native.String.{String}
use fastapi_template.Repositories.Items
use fastapi_template.Repositories.Attachments

-- The content type and the name as they were sent; the stream ends after its chunks, or raises.
pub record Upload : Type 0 where
  pub filename : Option String
  pub content_type : Option String
  pub chunks : List Bytes
  pub ending : Option Exception

-- What the service is built with.
pub record Acceptance : Type 0 where
  pub chars : Characters
  pub max_bytes : ℕ
  pub allowed_types : List String

-- The state of a request: its session's database, the store, and the session's hooks.
pub record World (S : Type 0) : Type 0 where
  pub db : Db
  pub files : S
  pub hooks : List (Pair String)

module _ {S : Type 0} where
  abbrev pub on_db : {A : Type 0} → Exec Db A → Exec (World S) A
  on_db m w = let (r, db) = m w.db in (r, record w { db = db })

  abbrev pub on_files : {A : Type 0} → Exec S A → Exec (World S) A
  on_files m w = let (r, files) = m w.files in (r, record w { files = files })

  -- `_delete_key_on_rollback`
  abbrev pub delete_key_on_rollback : String → Exec (World S) (Unit {0})
  delete_key_on_rollback key w =
      (ok tt, record w { hooks = run_after_outcome none (some key) w.hooks })

  -- `_delete_key_on_commit`
  abbrev pub delete_key_on_commit : String → Exec (World S) (Unit {0})
  delete_key_on_commit key w =
      (ok tt, record w { hooks = run_after_outcome (some key) none w.hooks })

abbrev pub type_refused : String → Exception
type_refused content_type = domain (
    domain_error_of forbidden_error "This deployment does not accept that file type"
      (some attachment_type_refused)
      (("type", text (if is_empty content_type then "unknown" else content_type)) ∷ []))

abbrev pub too_large : ℕ → Exception
too_large max_bytes = domain (
    domain_error_of payload_too_large_error "This file is larger than the deployment accepts"
      (some attachment_too_large) (("limit", number max_bytes) ∷ []))

abbrev pub ends : {S : Type 0} → Option Exception → Chunks S
ends none = done
ends (some e) = raises e

-- (content_type or "").split(";")[0].strip()
abbrev pub media_type : Characters → Option String → String
media_type chars sent = stripped chars.is_space (first_of (split_on b';' (or_empty sent)))

-- `_owned_item`
unfoldable pub owned_item : ℕ → ℕ → Exec Db (Unit {0})
owned_item item_id owner_id = do
  found ← Items.get_for_owner item_id owner_id
  item ← or_not_found found "Item not found" item_not_found
  pure tt

module _ {S : Type 0} (limits : Acceptance) (storage : Storage S) where
  -- `_bounded`, after `written` bytes
  unfoldable pub bounded : String → ℕ → List Bytes → Option Exception → Chunks S
  bounded key written [] ending = ends ending
  bounded key written (chunk ∷ chunks) ending =
      let rest = bounded key (written + length chunk) chunks ending in
      if ltb limits.max_bytes (written + length chunk)
      then does (storage.delete key) (raises (too_large limits.max_bytes))
      else yields chunk rest

  abbrev pub attachment_of : StoredFile → Upload → ℕ → ℕ → Attachment
  attachment_of stored upload item_id id = record {
    id = id;
    key = stored.key;
    filename = safe_filename limits.chars upload.filename;
    content_type = media_type limits.chars upload.content_type;
    size_bytes = stored.size_bytes;
    item_id = item_id;
  }

  -- The key is uuid4().hex.
  unfoldable pub add : ℕ → ℕ → Upload → String → Exec (World S) Attachment
  add item_id owner_id upload key = do
    on_db (owned_item item_id owner_id)
    refuse_if
        (not (any (str_eq (media_type limits.chars upload.content_type)) limits.allowed_types))
        (type_refused (media_type limits.chars upload.content_type))
    stored ← on_files (storage.save key (bounded key 0 upload.chunks upload.ending))
    delete_key_on_rollback stored.key
    on_db (Attachments.create (attachment_of stored upload item_id))

unfoldable pub list_for_item : ℕ → ℕ → Exec Db (List Attachment)
list_for_item item_id owner_id = do owned_item item_id owner_id; Attachments.list_for_item item_id

unfoldable pub get_for_owner : ℕ → ℕ → Exec Db Attachment
get_for_owner attachment_id owner_id = do
  found ← Attachments.get_for_owner attachment_id owner_id
  or_not_found found "Attachment not found" attachment_not_found

module _ {S : Type 0} (storage : Storage S) where
  -- `read`, which names the file of an attachment that was found
  unfoldable pub read_file : Attachment → Exec S Bytes
  read_file a = storage.open_file a.key

  unfoldable pub remove : ℕ → ℕ → Exec (World S) (Unit {0})
  remove attachment_id owner_id = do
    stored ← on_db (get_for_owner attachment_id owner_id)
    on_db (Attachments.remove stored)
    delete_key_on_commit stored.key

  -- `_delete_quietly`
  unfoldable pub delete_quietly : String → S → S
  delete_quietly key files = (storage.delete key files).1

  -- The tasks of `_schedule_delete`, run to their end
  abbrev pub cleaned : List String → S → S
  cleaned [] files = files
  cleaned (key ∷ keys) files = cleaned keys (delete_quietly key files)
