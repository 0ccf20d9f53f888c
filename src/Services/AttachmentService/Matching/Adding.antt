-- ===== src/Services/AttachmentService/Matching/Adding.antt =====
-- A request that adds an attachment through app/services/attachment_service.py.
use fastapi_template.Prelude.{
  ℕ, ◌+◌, String, ◌≡◌, refl, ◌∙◌, inl, inr, Bool, true, false, not, ◌&&◌, none, some, List, [], ◌∷◌,
  ◌++◌, arith, str_eq, ltb, if◌then◌else◌, Bool-cases, length, any, All, All-append, select, first,
  Bytes,
}
use fastapi_template.Errors.{ok, err}
use fastapi_template.Models.{Attachment, insert_row, Db}
use fastapi_template.Services.AttachmentService.{
  Upload, Acceptance, on_db, too_large, bounded, attachment_of, add, delete_quietly,
}
use fastapi_template.Storage.{StoredFile, Storage, joined, IsStore}
use fastapi_template.Hooks.{on_outcome, dispatch, run_after_outcome}
use fastapi_template.Services.AttachmentService.Requests.{Site, opened, settle, request}
use fastapi_template.Services.AttachmentService.Matching.{
  same_key, same_id, size_of, IsKept, length_of, IsMatched, str_eq_sym, IsMatched-cleared,
}
use fastapi_template.Services.AttachmentService.Bounds.{IsSaved, save-bounded, add-checked}
use text.Mathlib.TextEquality.{eq_iff}
use fastapi_template.Repositories.Unique.{Apart-append}
use fastapi_template.Repositories.Attachments

append_below :
    (rs : List Attachment) (a : Attachment) (next : ℕ)
    → All (λ b. ltb b.id next ≡ true) rs
    → a.id ≡ next
    → All (λ b. ltb b.id (next + 1) ≡ true) (rs ++ a ∷ [])
append_below [] a next h e = (ground arith, tt)
append_below (b ∷ rs) a next h e = (ground (arith, h.0), append_below rs a next h.1 e)

new_id :
    (rs : List Attachment) (a : Attachment) (next : ℕ)
    → All (λ b. ltb b.id next ≡ true) rs
    → a.id ≡ next
    → All (λ b. same_id b a ≡ false) rs
new_id [] a next h e = tt
new_id (b ∷ rs) a next h e = (ground (arith, h.0), new_id rs a next h.1 e)

new_key :
    (rs : List Attachment) (a : Attachment)
    → any (Attachments.has_key a.key) rs ≡ false
    → All (λ b. same_key b a ≡ false) rs
new_key [] a h = tt
new_key (b ∷ rs) a h = (ground arith, new_key rs a (ground arith))

first-append :
    (q : Attachment → Bool) (rs : List Attachment) (a : Attachment)
    → size_of (first (select q (rs ++ a ∷ [])))
      ≡ (if q a && not (any q rs) then some a.size_bytes else size_of (first (select q rs)))
first-append q [] a = ground arith
first-append q (b ∷ rs) a = ground (arith, first-append q rs a)

inserted-IsKept :
    (make : ℕ → Attachment) (db : Db)
    → IsKept db
    → (make db.attachments.next_id).id ≡ db.attachments.next_id
    → any (Attachments.has_key (make db.attachments.next_id).key) db.attachments.rows ≡ false
    → IsKept (record db { attachments = insert_row make db.attachments })
inserted-IsKept make db kept numbered fresh =
    let a = make db.attachments.next_id in
    record {
      keys_apart =
          Apart-append same_key db.attachments.rows a kept.keys_apart
            (new_key db.attachments.rows a fresh);
      ids_apart =
          Apart-append same_id db.attachments.rows a kept.ids_apart
            (new_id db.attachments.rows a db.attachments.next_id kept.below numbered);
      below = append_below db.attachments.rows a db.attachments.next_id kept.below numbered;
    }

module _ {S : Type 0} (limits : Acceptance) (storage : Storage S) (store : IsStore storage)
    (upload : Upload) (key : String) (site : Site S) (m : IsMatched storage store site)
    (k : store.IsKey key)
    (fresh : any (Attachments.has_key key) site.db.attachments.rows ≡ false) where
  abbrev the_content : Bytes
  the_content = joined upload.chunks

  -- The file was written, and then deleted.
  deleted-IsMatched :
      (files : S)
      → ((j : String)
          → store.view files j
            ≡ (if str_eq j key then some the_content else store.view site.files j))
      → IsMatched storage store (record { db = site.db; files = delete_quietly storage key files })
  unfolding delete_quietly
  deleted-IsMatched files stores =
      IsMatched-cleared storage store site key (delete_quietly storage key files) m fresh
        (λ j. store.delete_clears key files j k ∙ ground (arith, stores j))

  sized_at :
      (j : String) (a : Attachment) (files : S)
      → a.key ≡ key
      → a.size_bytes ≡ length the_content
      → ((j : String)
          → store.view files j
            ≡ (if str_eq j key then some the_content else store.view site.files j))
      → length_of (store.view files j)
        ≡ size_of (first (select (Attachments.has_key j) (site.db.attachments.rows ++ a ∷ [])))
  sized_at j a files named sized stores = elim (Bool-cases (str_eq j key)) [
    | inl same ↦
        let here : j ≡ key = (eq_iff j key).0 same in
        let absent : any (Attachments.has_key j) site.db.attachments.rows ≡ false = rw here fresh in
        let mine : Attachments.has_key j a ≡ true = (eq_iff a.key j).1 (rw (named, here) refl) in
        rw
          (
            stores j,
            same,
            first-append (Attachments.has_key j) site.db.attachments.rows a,
            absent,
            mine,
            sized,
          )
          refl
    | inr other ↦
        let theirs : Attachments.has_key j a ≡ false = rw named (str_eq_sym key j ∙ other) in
        rw
          (stores j, other, first-append (Attachments.has_key j) site.db.attachments.rows a, theirs)
          (m.sizes j)
  ]

  -- The file was written, and its row was inserted.
  inserted-IsMatched :
      (make : ℕ → Attachment) (files : S)
      → (make site.db.attachments.next_id).id ≡ site.db.attachments.next_id
      → (make site.db.attachments.next_id).key ≡ key
      → (make site.db.attachments.next_id).size_bytes ≡ length the_content
      → ((j : String)
          → store.view files j
            ≡ (if str_eq j key then some the_content else store.view site.files j))
      → IsMatched storage store (record {
        db = record site.db { attachments = insert_row make site.db.attachments };
        files = files;
      })
  inserted-IsMatched make files numbered named sized stores =
      let a = make site.db.attachments.next_id in
      let rows = site.db.attachments.rows in
      record {
        kept = inserted-IsKept make site.db m.kept numbered (rw named fresh);
        keys = All-append (λ b. store.IsKey b.key) rows (a ∷ []) m.keys (rw named k, tt);
        sizes = λ j. sized_at j a files named sized stores;
      }

  -- The row's INSERT and what follows it
  created :
      (make : ℕ → Attachment) (files : S)
      → (make site.db.attachments.next_id).id ≡ site.db.attachments.next_id
      → (make site.db.attachments.next_id).key ≡ key
      → (make site.db.attachments.next_id).size_bytes ≡ length the_content
      → ((j : String)
          → store.view files j
            ≡ (if str_eq j key then some the_content else store.view site.files j))
      → (commits : Bool)
      → IsMatched storage store
          (settle storage commits site.db (
            on_db (Attachments.create make) (record {
              db = site.db;
              files = files;
              hooks = run_after_outcome none (some key) [];
            }))).1
  unfolding dispatch on_outcome run_after_outcome
  created make files numbered named sized stores commits =
      elim (Attachments.create-cases make site.db) [
        | inl (e, failed) ↦ rw failed (deleted-IsMatched files stores)
        | inr (free, inserted) ↦ rw inserted (outcome commits)
      ]
    where
      outcome :
          (commits : Bool)
          → IsMatched storage store
              (settle storage commits site.db (
                ok (make site.db.attachments.next_id),
                record {
                  db = record site.db { attachments = insert_row make site.db.attachments };
                  files = files;
                  hooks = run_after_outcome none (some key) [];
                },
              )).1
      outcome true = inserted-IsMatched make files numbered named sized stores
      outcome false = deleted-IsMatched files stores

  -- The request as a whole
  pub add-IsMatched :
      (item_id owner_id : ℕ) (commits : Bool)
      → upload.ending ≡ none
      → IsMatched storage store
          (request storage commits (add limits storage item_id owner_id upload key) site).1
  unfolding request dispatch on_outcome run_after_outcome
  add-IsMatched item_id owner_id commits ends_well =
      let stream = bounded limits storage key 0 upload.chunks upload.ending in
      let files : S = (storage.save key stream site.files).1 in
      let answer : IsSaved limits storage store upload key site.files
          (ltb limits.max_bytes (length the_content)) =
        save-bounded limits storage store upload key site.files ends_well k in
      elim (add-checked limits storage store item_id owner_id upload key (opened storage site)) [
        | inl (e, refused) ↦ rw refused m
        | inr (allowed, went) ↦ elim (Bool-cases (ltb limits.max_bytes (length the_content))) [
          | inl over ↦
              let refused : (storage.save key stream site.files).0
                  ≡ err (too_large limits.max_bytes) =
                answer.0 ∙ rw over refl in
              rw (went, refused)
                (IsMatched-cleared storage store site key files m fresh
                  (λ j. answer.1 j ∙ rw over refl))
          | inr fits ↦
              let stored : StoredFile = record { key = key; size_bytes = length the_content } in
              let accepted : (storage.save key stream site.files).0 ≡ ok stored =
                answer.0 ∙ rw fits refl in
              let made = attachment_of limits storage stored upload item_id in
              rw (went, accepted)
                (created made files refl refl refl (λ j. answer.1 j ∙ rw fits refl) commits)
        ]
      ]
