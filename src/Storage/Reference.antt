-- ===== src/Storage/Reference.antt =====
-- A file store as a map from keys to contents: what app/core/storage/backend.py is for.
use fastapi_template.Prelude.{
  String, ◌≡◌, refl, inl, inr, Option, none, some, List, [], ◌∷◌, str_eq, if◌then◌else◌,
  Option-cases, length, All, Bytes,
}
use fastapi_template.Errors.{Exception, Result, ok, err}
use fastapi_template.Storage.{StoredFile, done, Storage, streamed, joined, IsStore}
use mathlib.Core.Path.{fun_ext}

pub data Call : Type 0 where
  saves : String → List Bytes → Call
  deletes : String → Call
  opens : String → Call

pub data Reply : Type 0 where
  save_reply : Result StoredFile → Reply
  delete_reply : Result (Unit {0}) → Reply
  open_reply : Result Bytes → Reply

abbrev pub key_of : Call → String
key_of (saves key chunks) = key
key_of (deletes key) = key
key_of (opens key) = key

abbrev pub Map : Type 0
Map = String → Option Bytes

abbrev pub put : String → Option Bytes → Map → Map
put key entry m j = if str_eq j key then entry else m j

abbrev found_or : Exception → Option Bytes → Result Bytes
found_or missing none = err missing
found_or missing (some bytes) = ok bytes

unfoldable pub reference : Exception → List Call → Map → List Reply
reference missing [] m = []
reference missing (saves key chunks ∷ calls) m =
    save_reply (ok (record { key = key; size_bytes = length (joined chunks) }))
    ∷ reference missing calls (put key (some (joined chunks)) m)
reference missing (deletes key ∷ calls) m =
    delete_reply (ok tt) ∷ reference missing calls (put key none m)
reference missing (opens key ∷ calls) m =
    open_reply (found_or missing (m key)) ∷ reference missing calls m

module _ {S : Type 0} (storage : Storage S) where
  unfoldable pub run : List Call → S → List Reply
  run [] s = []
  run (saves key chunks ∷ calls) s =
      let (r, after) = storage.save key (streamed chunks done) s in save_reply r ∷ run calls after
  run (deletes key ∷ calls) s =
      let (r, after) = storage.delete key s in delete_reply r ∷ run calls after
  run (opens key ∷ calls) s =
      let (r, after) = storage.open_file key s in open_reply r ∷ run calls after

  module _ (store : IsStore storage) where
    opened :
        (key : String) (s : S)
        → store.IsKey key
        → storage.open_file key s ≡ (found_or store.missing (store.view s key), s)
    opened key s k = elim (Option-cases (store.view s key)) [
      | inl missing ↦ rw missing (store.open_missing key s k missing)
      | inr (bytes, there) ↦ rw there (store.open_reads key bytes s k there)
    ]

    -- A store that keeps its promises answers as the map of its view does.
    pub run-reference :
        (calls : List Call) (s : S)
        → All (λ call. store.IsKey (key_of call)) calls
        → run calls s ≡ reference store.missing calls (store.view s)
    unfolding run reference
    run-reference [] s h = refl
    run-reference (saves key chunks ∷ calls) s (k, h) =
        let after : S = (storage.save key (streamed chunks done) s).1 in
        let same : store.view after ≡ put key (some (joined chunks)) (store.view s) =
          fun_ext (λ j. store.save_stores key chunks s j k) in
        rw (store.save_answers key chunks s k, run-reference calls after h, same) refl
    run-reference (deletes key ∷ calls) s (k, h) =
        let after : S = (storage.delete key s).1 in
        let same : store.view after ≡ put key none (store.view s) =
          fun_ext (λ j. store.delete_clears key s j k) in
        rw (store.delete_answers key s k, run-reference calls after h, same) refl
    run-reference (opens key ∷ calls) s (k, h) = rw (opened key s k, run-reference calls s h) refl
