-- ===== src/Services/AttachmentService/Accepted.antt =====
-- What `add` of app/services/attachment_service.py lets into the database.
use fastapi_template.Prelude.{
  ℕ, ◌≤◌, String, ◌≡◌, refl, inl, inr, true, none, arith, str_eq, ltb, Bool-cases, length, any,
}
use fastapi_template.Errors.{ok}
use fastapi_template.Models.{Attachment}
use fastapi_template.Services.AttachmentService.{
  fallback_filename, Upload, Acceptance, World, attachment_of, add,
}
use fastapi_template.Storage.{StoredFile, Storage, joined, IsStore}
use fastapi_template.Services.AttachmentService.Bounds.{save-bounded, add-checked}
use fastapi_template.Services.AttachmentService.Filenames.{
  every, IsSafeName, safe_filename-IsSafeName,
}
use mathlib.Core.Path.{subst}
use fastapi_template.Repositories.Attachments

module _ {S : Type 0} (limits : Acceptance) (storage : Storage S) (store : IsStore storage) where
  -- Within the limit, of an allowed type, and under a safe name
  abbrev pub IsAccepted : Upload → Attachment → Type 0
  IsAccepted upload a =
      (a.size_bytes ≤ limits.max_bytes)
      × (a.size_bytes ≡ length (joined upload.chunks))
      × (any (str_eq a.content_type) limits.allowed_types ≡ true)
      × IsSafeName limits.chars a.filename

  -- Over a store that keeps its promises, for a stream that does not fail and where the fallback
  -- name is printable, an attachment that is added has the size of the whole stream, which is at
  -- most the limit, an allowed content type, and a name of 1 to 255 printable characters without a
  -- slash and without any of the refused ones.
  pub add-IsAccepted :
      (item_id owner_id : ℕ) (upload : Upload) (key : String) (w : World S) (a : Attachment)
      → every limits.chars.is_printable fallback_filename ≡ true
      → store.IsKey key
      → upload.ending ≡ none
      → (add limits storage item_id owner_id upload key w).0 ≡ ok a
      → IsAccepted upload a
  add-IsAccepted item_id owner_id upload key w a plain k ends_well h =
      elim (add-checked limits storage store item_id owner_id upload key w) [
        | inl (e, refused) ↦ absurd (ground (arith, refused, h))
        | inr (allowed, went) ↦
            elim (Bool-cases (ltb limits.max_bytes (length (joined upload.chunks)))) [
              | inl over ↦
                  let (answer, _) =
                    save-bounded limits storage store upload key w.files ends_well k in
                  absurd (ground (arith, went, over, answer, h))
              | inr fits ↦
                  let (answer, _) =
                    save-bounded limits storage store upload key w.files ends_well k in
                  let stored : StoredFile = record {
                    key = key;
                    size_bytes = length (joined upload.chunks);
                  } in
                  let made = attachment_of limits storage stored upload item_id in
                  let same : made w.db.attachments.next_id ≡ a =
                    elim (Attachments.create-cases made w.db) [
                      | inl (e, failed) ↦ absurd (ground (arith, went, fits, answer, failed, h))
                      | inr (fresh, created) ↦ ground (arith, went, fits, answer, created, h)
                    ] in
                  subst (IsAccepted upload) same (
                    ground (arith, fits),
                    refl,
                    allowed,
                    safe_filename-IsSafeName limits.chars upload.filename plain,
                  )
            ]
      ]
