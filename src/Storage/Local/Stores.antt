-- ===== src/Storage/Local/Stores.antt =====
-- LocalStorage of app/core/storage/local.py keeps the promises of Storage.IsStore, where the
-- operating system refuses nothing, for keys that are one plain name.
use fastapi_template.Prelude.{
  ℕ, ◌+◌, ◌≡◌, refl, sym, ◌∙◌, inl, inr, Bool, true, false, not, ◌&&◌, Option, none, some, List, [],
  ◌∷◌, ◌++◌, append_assoc, append-nil, arith, str_eq, ◌==◌, Bool-cases, length, any, length-append,
  All, Bytes, codes, codes_eq, codes_eq-eq, codes_eq_refl,
}
use fastapi_template.Errors.{Exception, other_exception, ok, err}
use fastapi_template.Exec.{pure, resume}
use fastapi_template.Storage.{Chunks, done, raises, does, streamed, joined, IsStore}
use fastapi_template.Storage.Local.{
  FilePath, Disk, Device, path_eq, components, is_dot, is_dots, joins, is_relative_to, write,
  append, pump, path_of, save, open_file, delete_file, local_storage,
}
use fastapi_template.Storage.Reference.{Call, key_of, reference, run, run-reference}
use mathlib.Core.Path.{ap₂, fun_ext}
use text.Mathlib.TextEquality.{Char-path, eq_iff}
use Prim.Native.String.{String}

codes-eq : (j k : String) → codes j ≡ codes k → j ≡ k
codes-eq String.[] String.[] h = refl
codes-eq String.[] (String.◌∷◌ d k) h = absurd (ground arith)
codes-eq (String.◌∷◌ c j) String.[] h = absurd (ground arith)
codes-eq (String.◌∷◌ c j) (String.◌∷◌ d k) h =
    ap₂ String.◌∷◌ (Char-path c d (ground arith)) (codes-eq j k (ground arith))

codes_eq-codes : (j k : String) → codes_eq (codes j) (codes k) ≡ str_eq j k
codes_eq-codes j k = elim (Bool-cases (str_eq j k)) [
  | inl same ↦ rw (same, (eq_iff j k).0 same) (codes_eq_refl (codes k))
  | inr differs ↦ elim (Bool-cases (codes_eq (codes j) (codes k))) [
    | inr apart ↦ rw (differs, apart) refl
    | inl equal ↦
        absurd
          (ground (arith, (eq_iff j k).1 (codes-eq j k (codes_eq-eq (codes j) (codes k) equal))))
  ]
]

-- A file name: not empty, without a slash, and not a dot or two.
abbrev pub is_plain : List ℕ → Bool
is_plain cs = not (any (λ c. c == b'/') cs) && not (is_dot cs) && not (is_dots cs)

components_plain : (cs : List ℕ) → any (λ c. c == b'/') cs ≡ false → components cs ≡ cs ∷ []
components_plain [] h = refl
components_plain (c ∷ cs) h = ground (arith, components_plain cs)

path_eq-append :
    (root : FilePath) (a b : List ℕ) → path_eq (root ++ a ∷ []) (root ++ b ∷ []) ≡ codes_eq a b
path_eq-append [] a b = ground arith
path_eq-append (c ∷ root) a b = ground (arith, codes_eq_refl c, path_eq-append root a b)

is_relative_to-append : (root p : FilePath) → is_relative_to (root ++ p) root ≡ true
is_relative_to-append [] [] = refl
is_relative_to-append [] (c ∷ p) = refl
is_relative_to-append (c ∷ root) p = ground (arith, codes_eq_refl c, is_relative_to-append root p)

joins_plain : (root : FilePath) (cs : List ℕ) → is_plain cs ≡ true → joins root cs ≡ root ++ cs ∷ []
joins_plain root [] h = absurd (cc)
joins_plain root (c ∷ cs) h = ground (arith, components_plain (c ∷ cs))

path_eq_refl : (p : FilePath) → path_eq p p ≡ true
path_eq_refl [] = refl
path_eq_refl (c ∷ p) = ground (arith, codes_eq_refl c, path_eq_refl p)

write_twice :
    (p : FilePath) (old new : Option Bytes) (disk : Disk)
    → write p new (write p old disk) ≡ write p new disk
write_twice p old new disk = fun_ext (λ q. ground arith)

append-write :
    (p : FilePath) (chunk content : Bytes) (disk : Disk)
    → append p chunk (write p (some content) disk) ≡ write p (some (content ++ chunk)) disk
append-write p chunk content disk =
    rw (path_eq_refl p) (write_twice p (some content) (some (content ++ chunk)) disk)

zero_plus : (n : ℕ) → 0 + n ≡ n
zero_plus n = omega arith

module _ (device : Device) (root : FilePath)
    (writable : (p : FilePath) → device.is_writable p ≡ true)
    (accepted : (p : FilePath) (n : ℕ) → device.accepts p n ≡ true) where
  abbrev at_key : String → FilePath
  at_key key = root ++ codes key ∷ []

  abbrev pub IsPlain : String → Type 0
  IsPlain key = is_plain (codes key) ≡ true

  abbrev pub seen : Disk → String → Option Bytes
  seen disk key = disk (at_key key)

  path_of_plain : (key : String) → IsPlain key → path_of device root key ≡ ok (at_key key)
  unfolding path_of
  path_of_plain key h =
      rw (joins_plain root (codes key) h, is_relative_to-append root (codes key ∷ [])) refl

  pub path_eq_keys : (j key : String) → path_eq (at_key j) (at_key key) ≡ str_eq j key
  path_eq_keys j key = path_eq-append root (codes j) (codes key) ∙ codes_eq-codes j key

  -- Writing a stream to its end
  pump-streamed :
      (p : FilePath) (end : Chunks Disk) (chunks : List Bytes) (size : ℕ) (content : Bytes)
      (disk : Disk)
      → pump device p size (streamed chunks end) (write p (some content) disk)
        ≡ pump device p
            (size + length (joined chunks))
            end
            (write p (some (content ++ joined chunks)) disk)
  unfolding pump
  pump-streamed p end [] size content disk =
      ap₂ (λ n c. pump device p n end (write p (some c) disk)) (omega arith)
        (sym (append-nil content))
  pump-streamed p end (chunk ∷ chunks) size content disk =
      rw (accepted p (size + length chunk), append-write p chunk content disk)
        (pump-streamed p end chunks (size + length chunk) (content ++ chunk) disk
          ∙ ap₂ (λ n c. pump device p n end (write p (some c) disk))
              (omega (arith, length-append chunk (joined chunks)))
              (append_assoc content chunk (joined chunks)))

  saved_at :
      (key : String) (end : Chunks Disk) (chunks : List Bytes) (disk : Disk)
      → IsPlain key
      → save device root key (streamed chunks end) disk
        ≡ resume
            (λ size. pure (record { key = key; size_bytes = size }))
            (pump device
              (at_key key)
              (length (joined chunks))
              end
              (write (at_key key) (some (joined chunks)) disk))
  unfolding save
  saved_at key end chunks disk h =
      rw
        (
          path_of_plain key h,
          writable (at_key key),
          pump-streamed (at_key key) end chunks 0 [] disk,
          zero_plus (length (joined chunks)),
        )
        refl

  pub deleted_at :
      (key : String) (disk : Disk)
      → IsPlain key
      → delete_file device root key disk ≡ (ok tt, write (at_key key) none disk)
  unfolding delete_file
  deleted_at key disk h = rw (path_of_plain key h, writable (at_key key)) refl

  pub saved_done :
      (key : String) (chunks : List Bytes) (disk : Disk)
      → IsPlain key
      → save device root key (streamed chunks done) disk ≡ (
        ok (record { key = key; size_bytes = length (joined chunks) }),
        write (at_key key) (some (joined chunks)) disk,
      )
  unfolding pump
  saved_done key chunks disk h = saved_at key done chunks disk h

  pub saved_refused :
      (key : String) (chunks : List Bytes) (e : Exception) (disk : Disk)
      → IsPlain key
      → save device root key (streamed chunks (does (delete_file device root key) (raises e))) disk
        ≡ (err e, write (at_key key) none disk)
  unfolding pump
  saved_refused key chunks e disk h =
      saved_at key (does (delete_file device root key) (raises e)) chunks disk h
      ∙ rw
          (
            deleted_at key (write (at_key key) (some (joined chunks)) disk) h,
            write_twice (at_key key) (some (joined chunks)) none disk,
          )
          refl

  pub opened :
      (key : String) (content : Bytes) (disk : Disk)
      → IsPlain key
      → seen disk key ≡ some content
      → open_file device root key disk ≡ (ok content, disk)
  unfolding open_file
  opened key content disk h there = rw (path_of_plain key h, there) refl

  pub unread :
      (key : String) (disk : Disk)
      → IsPlain key
      → seen disk key ≡ none
      → open_file device root key disk ≡ (err other_exception, disk)
  unfolding open_file
  unread key disk h missing = rw (path_of_plain key h, missing) refl

  -- The promises of the interface
  abbrev pub local_store : IsStore (local_storage device root)
  local_store = record {
    IsKey = IsPlain;
    view = seen;
    save_answers = λ key chunks s h. rw (saved_done key chunks s h) refl;
    save_stores = λ key chunks s j h. rw (saved_done key chunks s h, path_eq_keys j key) refl;
    refused_answers = λ key chunks e s h. rw (saved_refused key chunks e s h) refl;
    refused_clears =
        λ key chunks e s j h. rw (saved_refused key chunks e s h, path_eq_keys j key) refl;
    delete_answers = λ key s h. rw (deleted_at key s h) refl;
    delete_clears = λ key s j h. rw (deleted_at key s h, path_eq_keys j key) refl;
    missing = other_exception;
    open_reads = λ key content s h there. opened key content s h there;
    open_missing = λ key s h missing. unread key s h missing;
  }

  -- Where the operating system refuses no write, a sequence of saves, deletes and reads under keys
  -- that are plain file names gets from the local store the answers that a map from keys to
  -- contents gives.
  pub local_storage-refines :
      (calls : List Call) (disk : Disk)
      → All (λ call. IsPlain (key_of call)) calls
      → run (local_storage device root) calls disk ≡ reference other_exception calls (seen disk)
  local_storage-refines calls disk h =
      run-reference (local_storage device root) local_store calls disk h
