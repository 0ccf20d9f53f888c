-- ===== src/Storage.antt =====
-- app/core/storage/backend.py: the interface that a file store gives, and what it promises.
pub mod Local
pub mod Reference
use fastapi_template.Prelude.{
  ℕ, String, ◌≡◌, Option, none, some, List, [], ◌∷◌, ◌++◌, str_eq, if◌then◌else◌, length, delete,
  Bytes,
}
use fastapi_template.Errors.{Exception, ok, err}
use fastapi_template.Exec.{Exec}

pub record StoredFile : Type 0 where
  pub key : String
  pub size_bytes : ℕ

-- An `AsyncIterator[bytes]` whose reading may act on a state: it ends, raises, gives a chunk, or
-- does something first, which may raise.
pub data Chunks (S : Type 0) : Type 0 where
  done : Chunks S
  raises : Exception → Chunks S
  yields : Bytes → Chunks S → Chunks S
  does : Exec S (Unit {0}) → Chunks S → Chunks S

-- The Protocol `Storage`. `open` is read to its end.
pub record Storage (S : Type 0) : Type 0 where
  pub save : String → Chunks S → Exec S StoredFile
  pub open_file : String → Exec S Bytes
  pub delete : String → Exec S (Unit {0})

abbrev pub streamed : {S : Type 0} → List Bytes → Chunks S → Chunks S
streamed [] end = end
streamed (chunk ∷ chunks) end = yields chunk (streamed chunks end)

abbrev pub joined : List Bytes → Bytes
joined [] = []
joined (chunk ∷ chunks) = chunk ++ joined chunks

-- What a store that does not fail promises for the keys that it takes: after each call, each key
-- has what a map from keys to contents has.
pub record IsStore {S : Type 0} (storage : Storage S) : Type 1 where
  pub IsKey : String → Type 0
  pub view : S → String → Option Bytes
  pub save_answers :
      (key : String) (chunks : List Bytes) (s : S)
      → IsKey key
      → (storage.save key (streamed chunks done) s).0
        ≡ ok (record { key = key; size_bytes = length (joined chunks) })
  pub save_stores :
      (key : String) (chunks : List Bytes) (s : S) (j : String)
      → IsKey key
      → view (storage.save key (streamed chunks done) s).1 j
        ≡ (if str_eq j key then some (joined chunks) else view s j)
  pub refused_answers :
      (key : String) (chunks : List Bytes) (e : Exception) (s : S)
      → IsKey key
      → (storage.save key (streamed chunks (does (storage.delete key) (raises e))) s).0 ≡ err e
  pub refused_clears :
      (key : String) (chunks : List Bytes) (e : Exception) (s : S) (j : String)
      → IsKey key
      → view (storage.save key (streamed chunks (does (storage.delete key) (raises e))) s).1 j
        ≡ (if str_eq j key then none else view s j)
  pub delete_answers : (key : String) (s : S) → IsKey key → (storage.delete key s).0 ≡ ok tt
  pub delete_clears :
      (key : String) (s : S) (j : String)
      → IsKey key
      → view (storage.delete key s).1 j ≡ (if str_eq j key then none else view s j)
  pub missing : Exception
  pub open_reads :
      (key : String) (content : Bytes) (s : S)
      → IsKey key
      → view s key ≡ some content
      → storage.open_file key s ≡ (ok content, s)
  pub open_missing :
      (key : String) (s : S)
      → IsKey key
      → view s key ≡ none
      → storage.open_file key s ≡ (err missing, s)
