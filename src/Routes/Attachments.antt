-- ===== src/Routes/Attachments.antt =====
-- app/api/v1/routes/attachments.py, with urllib's quote over UTF-8 and the ASCII encoding of Python for
-- the header of a download. A character of the model is no lone surrogate, at which quote would raise;
-- `safe_filename` keeps none, since it is not printable. A download reads the whole file.
pub mod Header
use fastapi_template.Prelude.{
  ℕ, ◌+◌, ◌/◌, String, Bool, ◌&&◌, ◌||◌, some, List, [], ◌∷◌, ◌++◌, map, ltb, leb, ◌==◌,
  if◌then◌else◌, codes,
}
use fastapi_template.Models.{User}
use fastapi_template.Exec.{Exec, pure, ◌>>=◌, ◌>>◌}
use fastapi_template.Routes.{
  Setting, Caller, Response, no_content, attachment_read, attachment_list, download, protected,
}
use fastapi_template.Services.AttachmentService.{Upload, Acceptance, World, on_db, on_files}
use fastapi_template.Features.{items_feature}
use fastapi_template.Storage.{Storage}
use fastapi_template.Services.AttachmentService
use Prim.Native.Nat.{◌%◌}

-- str.encode of one character, in UTF-8
abbrev pub utf8 : ℕ → List ℕ
utf8 c =
    if ltb c 128
    then c ∷ []
    else if ltb c 2048
    then (192 + c / 64) ∷ (128 + c % 64) ∷ []
    else if ltb c 65536
    then (224 + c / 4096) ∷ (128 + c / 64 % 64) ∷ (128 + c % 64) ∷ []
    else (240 + c / 262144) ∷ (128 + c / 4096 % 64) ∷ (128 + c / 64 % 64) ∷ (128 + c % 64) ∷ []

abbrev pub flat_map : (ℕ → List ℕ) → List ℕ → List ℕ
flat_map f [] = []
flat_map f (x ∷ xs) = f x ++ flat_map f xs

-- The characters that quote leaves, where `safe` is empty: letters, digits and `_.-~`.
abbrev pub is_unreserved : ℕ → Bool
is_unreserved b =
    (leb b'A' b && leb b b'Z')
    || (leb b'a' b && leb b b'z')
    || (leb b'0' b && leb b b'9')
    || b == b'_'
    || b == b'.'
    || b == b'-'
    || b == b'~'

abbrev pub hex_digit : ℕ → ℕ
hex_digit d = if ltb d 10 then b'0' + d else 55 + d

abbrev pub quote_byte : ℕ → List ℕ
quote_byte b =
    if is_unreserved b then b ∷ [] else b'%' ∷ hex_digit (b / 16) ∷ hex_digit (b % 16) ∷ []

-- quote(filename, safe="")
unfoldable pub quoted_utf8 : String → List ℕ
quoted_utf8 filename = flat_map quote_byte (flat_map utf8 (codes filename))

-- filename.encode("ascii", "replace") with the two replacements
abbrev pub ascii_char : ℕ → ℕ
ascii_char c =
    let encoded = if ltb c 128 then c else b'?' in
    if encoded == 92 then b'_' else if encoded == 34 then b'_' else encoded

unfoldable pub ascii_name : String → List ℕ
ascii_name filename = map ascii_char (codes filename)

unfoldable pub disposition : String → List ℕ
unfolding ascii_name quoted_utf8
disposition filename =
    codes "attachment; filename=\""
    ++ (ascii_name filename ++ (codes "\"; filename*=UTF-8''" ++ quoted_utf8 filename))

-- What the service is built with, over a store of files `S`
pub record FileSetting (S : Type 0) : Type 0 where
  pub limits : Acceptance
  pub storage : Storage S

module _ {S : Type 0} (s : Setting) (f : FileSetting S)
    (caller : Caller s.deployment.crypto.Text) where
  abbrev pub FileAnswer : Type 0
  FileAnswer = Exec (World S) (Response s.deployment.crypto.Text)

  -- CurrentUser, behind the feature of both routers
  unfoldable pub current_user : Exec (World S) User
  current_user = on_db (protected s caller (some items_feature) [] (λ actor. pure actor.user))

  -- The key of the file is uuid4().hex.
  unfoldable pub add_attachment : ℕ → Upload → String → FileAnswer
  add_attachment item_id upload key = do
    user ← current_user
    stored ← AttachmentService.add f.limits f.storage item_id user.id upload key
    pure (attachment_read stored)

  unfoldable pub list_attachments : ℕ → FileAnswer
  list_attachments item_id = do
    user ← current_user
    stored ← on_db (AttachmentService.list_for_item item_id user.id)
    pure (attachment_list stored)

  unfoldable pub download_attachment : ℕ → FileAnswer
  download_attachment attachment_id = do
    user ← current_user
    stored ← on_db (AttachmentService.get_for_owner attachment_id user.id)
    content ← on_files (AttachmentService.read_file f.storage stored)
    pure (download content stored.content_type (disposition stored.filename))

  unfoldable pub remove_attachment : ℕ → FileAnswer
  remove_attachment attachment_id = do
    user ← current_user
    AttachmentService.remove f.storage attachment_id user.id
    pure no_content
