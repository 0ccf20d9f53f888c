-- ===== src/Services/AttachmentService/Bounds.antt =====
-- The limits of app/services/attachment_service.py on what an account stores.
use fastapi_template.Prelude.{
  ℕ, ◌+◌, String, ◌≡◌, refl, ◌⊎◌, inl, inr, Bool, true, false, ◌&&◌, Option, none, some, List, [],
  ◌∷◌, ◌++◌, arith, str_eq, ltb, leb, ◌==◌, if◌then◌else◌, Bool-cases, length, any, length-append,
  select, Bytes,
}
use fastapi_template.Errors.{item_not_found, Exception, Result, ok, err, Result-cases}
use fastapi_template.Models.{Item, Attachment, Db}
use fastapi_template.Exec.{Exec, pure, resume, ◌>>=◌, ◌>>◌}
use fastapi_template.Services.AttachmentService.{
  Upload, Acceptance, World, on_db, on_files, delete_key_on_rollback, type_refused, too_large,
  media_type, owned_item, bounded, attachment_of, add,
}
use fastapi_template.Storage.{StoredFile, done, raises, does, Storage, streamed, joined, IsStore}
use fastapi_template.Services.Support.{or_not_found}
use fastapi_template.Repositories.Base.{one_or_none}
use fastapi_template.Repositories.Items
use fastapi_template.Repositories.Attachments

bounded-fits :
    {S : Type 0} (limits : Acceptance) (storage : Storage S) (key : String) (written : ℕ)
    (chunks : List Bytes)
    → ltb limits.max_bytes (written + length (joined chunks)) ≡ false
    → bounded limits storage key written chunks none ≡ streamed chunks done
unfolding bounded
bounded-fits limits storage key written [] h = refl
bounded-fits limits storage key written (chunk ∷ chunks) h =
    let sum : length (chunk ++ joined chunks) ≡ length chunk + length (joined chunks) =
      length-append chunk (joined chunks) in
    rw (bounded-fits limits storage key (written + length chunk) chunks (ground (arith, sum, h)))
      (ground (arith, sum, h))

-- A stream over the limit: some first chunks, then the store deletes the file, and 413.
bounded-over :
    {S : Type 0} (limits : Acceptance) (storage : Storage S) (key : String) (written : ℕ)
    (chunks : List Bytes) (ending : Option Exception)
    → leb written limits.max_bytes ≡ true
    → ltb limits.max_bytes (written + length (joined chunks)) ≡ true
    → (front : List Bytes) × (bounded limits storage key written chunks ending
        ≡ streamed front (does (storage.delete key) (raises (too_large limits.max_bytes))))
unfolding bounded
bounded-over limits storage key written [] ending k h = absurd (ground arith)
bounded-over limits storage key written (chunk ∷ chunks) ending k h =
    elim (Bool-cases (ltb limits.max_bytes (written + length chunk))) [
      | inl over ↦ ([], rw over refl)
      | inr fits ↦
          let sum : length (chunk ++ joined chunks) ≡ length chunk + length (joined chunks) =
            length-append chunk (joined chunks) in
          let (front, e) =
            bounded-over limits storage key (written + length chunk) chunks ending
              (ground (arith, fits)) (ground (arith, sum, h)) in
          (chunk ∷ front, rw (fits, e) refl)
    ]

module _ {S : Type 0} (limits : Acceptance) (storage : Storage S) (store : IsStore storage) where
  abbrev pub content : Upload → Bytes
  content upload = joined upload.chunks

  -- What saving a stream that ends does to a store that does not fail.
  abbrev pub IsSaved : Upload → String → S → Bool → Type 0
  IsSaved upload key s over =
      let after = storage.save key (bounded limits storage key 0 upload.chunks upload.ending) s in
      (after.0 ≡ (
        if over
        then err (too_large limits.max_bytes)
        else ok (record { key = key; size_bytes = length (content upload) })))
      × ((j : String)
          → store.view after.1 j ≡ (
              if str_eq j key
              then if over then none else some (content upload)
              else store.view s j))

  pub save-bounded :
      (upload : Upload) (key : String) (s : S)
      → upload.ending ≡ none
      → store.IsKey key
      → IsSaved upload key s (ltb limits.max_bytes (length (content upload)))
  save-bounded upload key s ends_well k =
      elim (Bool-cases (ltb limits.max_bytes (length (content upload)))) [
        | inr fits ↦
            rw
              (
                fits,
                ends_well,
                bounded-fits limits storage key 0 upload.chunks (ground (arith, fits)),
              )
              (
                store.save_answers key upload.chunks s k,
                λ j. store.save_stores key upload.chunks s j k,
              )
        | inl over ↦
            let (front, e) =
              bounded-over limits storage key 0 upload.chunks upload.ending (ground arith)
                (ground (arith, over)) in
            rw (over, e)
              (
                store.refused_answers key front (too_large limits.max_bytes) s k,
                λ j. store.refused_clears key front (too_large limits.max_bytes) s j k,
              )
      ]

  owned_item_state : (item_id owner_id : ℕ) (db : Db) → (owned_item item_id owner_id db).1 ≡ db
  unfolding owned_item Items.get_for_owner
  owned_item_state item_id owner_id db =
      found (one_or_none (select (λ i. i.id == item_id && Items.is_owned owner_id i) db.items.rows))
    where
      found :
          (r : Result (Option Item))
          → (resume
              (λ o. (or_not_found {S = Db} o "Item not found" item_not_found) >>= λ i. pure tt)
              (r, db)).1
            ≡ db
      found (err e) = refl
      found (ok none) = refl
      found (ok (some i)) = refl

  abbrev pub is_allowed : Upload → Bool
  is_allowed upload =
      any (str_eq (media_type limits.chars upload.content_type)) limits.allowed_types

  module _ (item_id owner_id : ℕ) (upload : Upload) (key : String) where
    abbrev pub then_stored : StoredFile → Exec (World S) Attachment
    then_stored stored =
        delete_key_on_rollback stored.key
        >> on_db (Attachments.create (attachment_of limits storage stored upload item_id))

    -- Either a check refuses and nothing has happened, or the type is allowed and the store is asked.
    pub add-checked :
        (w : World S)
        → ((e : Exception) × (add limits storage item_id owner_id upload key w ≡ (err e, w)))
          ⊎ ((is_allowed upload ≡ true)
              × (add limits storage item_id owner_id upload key w
                  ≡ resume then_stored (
                      on_files
                        (storage.save key
                          (bounded limits storage key 0 upload.chunks upload.ending))
                        w)))
    unfolding add
    add-checked w = elim (Result-cases (owned_item item_id owner_id w.db).0) [
      | inl (e, missing) ↦ inl (e, rw (missing, owned_item_state item_id owner_id w.db) refl)
      | inr (t, owned) ↦ elim (Bool-cases (is_allowed upload)) [
        | inl allowed ↦
            inr (allowed, rw (owned, owned_item_state item_id owner_id w.db, allowed) refl)
        | inr refused ↦ inl (
          type_refused (media_type limits.chars upload.content_type),
          rw (owned, owned_item_state item_id owner_id w.db, refused) refl,
        )
      ]
    ]
