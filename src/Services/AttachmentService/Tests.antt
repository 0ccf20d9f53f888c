-- ===== src/Services/AttachmentService/Tests.antt =====
-- Runs of app/services/attachment_service.py over the store of app/core/storage/local.py.
use fastapi_template.Prelude.{
  ◌≡◌, refl, true, ◌&&◌, none, some, [], ◌∷◌, ltb, leb, ◌==◌, length, Bytes,
}
use fastapi_template.Errors.{ok}
use fastapi_template.Models.{Item, Attachment, empty_db}
use fastapi_template.Services.AttachmentService.{
  safe_filename, Characters, Upload, Acceptance, owned_item, bounded, add, read_file,
}
use fastapi_template.Storage.{Storage}
use fastapi_template.Storage.Local.{Disk, pump, path_of, save, local_storage}
use fastapi_template.Storage.Local.Tests.{root, open_device, empty_disk, open_store}
use fastapi_template.Services.AttachmentService.Requests.{Site, request}
use fastapi_template.Services.AttachmentService.Accepted.{IsAccepted, add-IsAccepted}
use fastapi_template.Services.AttachmentService.Matching.{IsMatched}
use fastapi_template.Services.AttachmentService.Matching.Sessions.{
  adds, here, next, Reach, Reach-IsMatched, read_file-IsWhole,
}
use fastapi_template.Hooks.{on_outcome, dispatch, run_after_outcome}
use Prim.Native.Char.{code}
use fastapi_template.Repositories.Attachments
use fastapi_template.Repositories.Items
use fastapi_template.Services.AttachmentService

abbrev pub latin : Characters
latin = record {
  is_printable = λ c. leb 32 (code c) && ltb (code c) 127;
  is_space = λ c. code c == 32;
}

abbrev pub limits : Acceptance
limits = record { chars = latin; max_bytes = 4; allowed_types = "image/png" ∷ [] }

safe_name : safe_filename latin (some "C:\\temp\\..\\my; \"cat\".png ") ≡ "my cat.png"
unfolding safe_filename
safe_name = refl

no_name : safe_filename latin (some "photos/./;;") ≡ "file"
unfolding safe_filename
no_name = refl

abbrev note : Item
note = record {
  id = 1;
  title = "note";
  description = none;
  owner_id = 1;
  deleted_at = none;
  version = 1;
}

abbrev site : Site Disk
site = record {
  db = record empty_db { items = record { rows = note ∷ []; next_id = 2 } };
  files = empty_disk;
}

abbrev cat : Upload
cat = record {
  filename = some "a/cat.png";
  content_type = some " image/png; q=1";
  chunks = (1 ∷ 2 ∷ []) ∷ (3 ∷ []) ∷ [];
  ending = none;
}

abbrev stored_cat : Attachment
stored_cat = record {
  id = 1;
  key = "k1";
  filename = "cat.png";
  content_type = "image/png";
  size_bytes = 3;
  item_id = 1;
}

abbrev storage : Storage Disk
storage = local_storage open_device root

abbrev with_cat : Site Disk
with_cat = (request storage true (add limits storage 1 1 cat "k1") site).1

site-IsMatched : IsMatched storage open_store site
site-IsMatched = record {
  kept = record { keys_apart = tt; ids_apart = tt; below = tt };
  keys = tt;
  sizes = λ key. refl;
}

abbrev one_more : Reach limits storage open_store site with_cat
one_more = next here (adds 1 1 cat "k1" true refl refl refl)

Reach-IsMatched_example : IsMatched storage open_store with_cat
Reach-IsMatched_example = Reach-IsMatched limits storage open_store site-IsMatched one_more

add-IsAccepted_example : IsAccepted limits storage open_store cat stored_cat
unfolding add owned_item Items.get_for_owner Attachments.create bounded save path_of pump
    safe_filename run_after_outcome
add-IsAccepted_example =
    add-IsAccepted limits storage open_store 1 1 cat "k1"
      (record { db = site.db; files = site.files; hooks = [] }) stored_cat refl refl refl refl

read_file-IsWhole_example :
    (content : Bytes) × (read_file storage stored_cat with_cat.files ≡ (ok content, with_cat.files))
    × (length content ≡ 3)
unfolding add owned_item Items.get_for_owner Attachments.create bounded save path_of pump
    safe_filename run_after_outcome request dispatch on_outcome AttachmentService.get_for_owner
    Attachments.get_for_owner
read_file-IsWhole_example =
    read_file-IsWhole limits storage open_store with_cat 1 1 stored_cat
      (Reach-IsMatched limits storage open_store site-IsMatched one_more) refl
