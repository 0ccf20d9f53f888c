-- ===== src/Services/AttachmentService/Matching/Removing.antt =====
-- A request that removes an attachment through app/services/attachment_service.py.
use fastapi_template.Prelude.{
  ℕ, String, ◌≡◌, refl, sym, ◌∙◌, inl, inr, Bool, true, false, not, none, some, List, [], ◌∷◌,
  arith, str_eq, ltb, ◌==◌, if◌then◌else◌, Bool-cases, Option-cases, select, delete, first,
  All-select,
}
use fastapi_template.Errors.{ok}
use fastapi_template.Models.{Attachment, Db}
use fastapi_template.Services.AttachmentService.{get_for_owner, remove, delete_quietly}
use fastapi_template.Storage.{Storage, IsStore}
use fastapi_template.Hooks.{on_outcome, dispatch, run_after_outcome}
use fastapi_template.Services.AttachmentService.Requests.{Site, settle, request}
use fastapi_template.Services.AttachmentService.Matching.{
  same_key, same_id, recorded, IsKept, IsMatched, str_eq_sym,
}
use fastapi_template.Repositories.Unique.{
  Apart, Separates, select-apart, one_or_none-select, first-found, select-delete, Apart-select,
  All-first,
}
use text.Mathlib.TextEquality.{eq_iff}
use fastapi_template.Repositories.Attachments

module _ {R : Type 0} (p q : R → Bool) where
  delete_absent : (rs : List R) → select p rs ≡ [] → delete p rs ≡ rs
  delete_absent [] h = refl
  delete_absent (r ∷ rs) h = ground (arith, delete_absent rs)

  -- The DELETE of the one row that a query finds, which another query does not see
  delete-other :
      (c : R → R → Bool) (rs : List R) (e : R)
      → Separates c p
      → Apart c rs
      → first (select p rs) ≡ some e
      → q e ≡ false
      → select q (delete p rs) ≡ select q rs
  delete-other c [] e sep h k qe = refl
  delete-other c (r ∷ rs) e sep h k qe = elim (Bool-cases (p r)) [
    | inl mine ↦
        let same : r ≡ e = ground (arith, mine, k) in
        let unseen : q r ≡ false = rw same qe in
        rw (mine, unseen, delete_absent rs (select-apart c p r rs sep mine h.0)) refl
    | inr other ↦
        rw other (ground (arith, delete-other c rs e sep h.1 (ground (arith, other, k)) qe))
  ]

abbrev has_id : ℕ → Attachment → Bool
has_id id a = a.id == id

pub key_separates : (key : String) → Separates same_key (Attachments.has_key key)
key_separates key a b ha hb =
    (eq_iff a.key b.key).1 ((eq_iff a.key key).0 ha ∙ sym ((eq_iff b.key key).0 hb))

id_separates : (id : ℕ) → Separates same_id (has_id id)
id_separates id a b ha hb = ground arith

abbrev after_delete : Attachment → Db → Db
after_delete a db = Attachments.with_rows db (delete (has_id a.id) db.attachments.rows)

module _ {S : Type 0} (storage : Storage S) (store : IsStore storage) (site : Site S)
    (m : IsMatched storage store site) (attachment_id owner_id : ℕ) where
  abbrev query : Attachment → Bool
  query = Attachments.is_attachment_of site.db.items.rows attachment_id owner_id

  pub query_separates : Separates same_id query
  query_separates a b ha hb = ground arith

  -- The row that the service finds is the one of its id and of its key.
  module _ (a : Attachment) (found : first (select query site.db.attachments.rows) ≡ some a) where
    by_id : first (select (has_id a.id) site.db.attachments.rows) ≡ some a
    by_id =
        first-found same_id (has_id a.id) query site.db.attachments.rows a (id_separates a.id)
          m.kept.ids_apart found (ground arith)

    recorded-delete :
        (j : String)
        → recorded j (after_delete a site.db)
          ≡ (if str_eq j a.key then none else recorded j site.db)
    recorded-delete j = elim (Bool-cases (str_eq j a.key)) [
      | inl same ↦
          let q = Attachments.has_key j in
          let mine : q a ≡ true = (eq_iff a.key j).1 (sym ((eq_iff j a.key).0 same)) in
          let by_key : first (select q site.db.attachments.rows) ≡ some a =
            first-found same_key q query site.db.attachments.rows a (key_separates j)
              m.kept.keys_apart found mine in
          rw
            (
              same,
              select-delete same_key (has_id a.id) q site.db.attachments.rows a (key_separates j)
                  m.kept.keys_apart by_key (ground arith),
            )
            refl
      | inr other ↦
          rw
            (
              other,
              delete-other (has_id a.id) (Attachments.has_key j) same_id site.db.attachments.rows a
                  (id_separates a.id) m.kept.ids_apart by_id (str_eq_sym a.key j ∙ other),
            )
            refl
    ]

    deleted-IsKept : IsKept (after_delete a site.db)
    deleted-IsKept = record {
      keys_apart =
          Apart-select same_key (λ r. not (has_id a.id r)) site.db.attachments.rows
            m.kept.keys_apart;
      ids_apart =
          Apart-select same_id (λ r. not (has_id a.id r)) site.db.attachments.rows m.kept.ids_apart;
      below =
          All-select (λ r. ltb r.id site.db.attachments.next_id ≡ true) (λ r. not (has_id a.id r))
            site.db.attachments.rows m.kept.below;
    }

    removed-IsMatched :
        IsMatched storage store
          (record { db = after_delete a site.db; files = delete_quietly storage a.key site.files })
    unfolding delete_quietly
    removed-IsMatched =
        let k : store.IsKey a.key =
          All-first (λ r. store.IsKey r.key) query site.db.attachments.rows a m.keys found in
        record {
          kept = deleted-IsKept;
          keys =
              All-select (λ r. store.IsKey r.key) (λ r. not (has_id a.id r))
                site.db.attachments.rows m.keys;
          sizes = λ j. elim (Bool-cases (str_eq j a.key)) [
            | inl same ↦ rw (store.delete_clears a.key site.files j k, recorded-delete j, same) refl
            | inr other ↦
                rw (store.delete_clears a.key site.files j k, recorded-delete j, other) (m.sizes j)
          ];
        }

  -- The request as a whole
  pub remove-IsMatched :
      (commits : Bool)
      → IsMatched storage store
          (request storage commits (remove storage attachment_id owner_id) site).1
  unfolding request remove get_for_owner Attachments.get_for_owner Attachments.remove dispatch
      on_outcome run_after_outcome
  remove-IsMatched commits =
      rw
        (one_or_none-select same_id query site.db.attachments.rows query_separates m.kept.ids_apart)
        (elim (Option-cases (first (select query site.db.attachments.rows))) [
          | inl missing ↦ rw missing m
          | inr (a, found) ↦ rw found (outcome a found commits)
        ])
    where
      outcome :
          (a : Attachment)
          → first (select query site.db.attachments.rows) ≡ some a
          → (commits : Bool)
          → IsMatched storage store
              (settle storage commits site.db (
                ok tt,
                record {
                  db = after_delete a site.db;
                  files = site.files;
                  hooks = run_after_outcome (some a.key) none [];
                },
              )).1
      outcome a found true = removed-IsMatched a found
      outcome a found false = m
