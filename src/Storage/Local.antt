-- ===== src/Storage/Local.antt =====
-- LocalStorage of app/core/storage/local.py. A path is its components from the root of the file
-- system, each the code points of a name. Symbolic links are not modelled: `resolve` drops empty
-- components and dots, and goes up at two dots.
pub mod Inside
pub mod Stores
pub mod Tests
use fastapi_template.Prelude.{
  ℕ, ◌+◌, String, Bool, true, false, ◌&&◌, ◌||◌, Option, none, some, List, [], ◌∷◌, ◌++◌, ◌==◌,
  if◌then◌else◌, length, delete, Bytes, codes, codes_eq,
}
use fastapi_template.Errors.{value_error, other_exception, Result, ok, err}
use fastapi_template.Exec.{Exec, pure, read, resume}
use fastapi_template.Storage.{StoredFile, Chunks, done, raises, yields, does, Storage}

abbrev pub FilePath : Type 0
FilePath = List (List ℕ)

-- The files with their contents.
abbrev pub Disk : Type 0
Disk = FilePath → Option Bytes

-- What the operating system lets the process do: which paths it may write, and up to which
-- length it may write a file.
pub record Device : Type 0 where
  pub is_writable : FilePath → Bool
  pub accepts : FilePath → ℕ → Bool

abbrev pub path_eq : FilePath → FilePath → Bool
path_eq [] [] = true
path_eq (a ∷ p) (b ∷ q) = codes_eq a b && path_eq p q
path_eq _ _ = false

abbrev pub longer : ℕ → FilePath → FilePath
longer c [] = (c ∷ []) ∷ []
longer c (d ∷ p) = (c ∷ d) ∷ p

-- The text between slashes: at least one component, which may be empty.
abbrev pub components : List ℕ → FilePath
components [] = [] ∷ []
components (c ∷ cs) = let rest = components cs in if c == b'/' then [] ∷ rest else longer c rest

abbrev pub parent : FilePath → FilePath
parent [] = []
parent (c ∷ []) = []
parent (c ∷ d ∷ p) = c ∷ parent (d ∷ p)

abbrev pub is_dot : List ℕ → Bool
is_dot c = codes_eq c [] || codes_eq c (b'.' ∷ [])

abbrev pub is_dots : List ℕ → Bool
is_dots c = codes_eq c (b'.' ∷ b'.' ∷ [])

-- Path.resolve, of the components `cs` below the resolved path `p`
abbrev pub resolve : FilePath → FilePath → FilePath
resolve p [] = p
resolve p (c ∷ cs) =
    resolve (if is_dot c then p else if is_dots c then parent p else p ++ c ∷ []) cs

-- root / key: an absolute key leaves the root behind
abbrev pub joins : FilePath → List ℕ → FilePath
joins root [] = root
joins root (c ∷ cs) =
    if c == b'/' then resolve [] (components cs) else resolve root (components (c ∷ cs))

-- Path.is_relative_to, of resolved paths
abbrev pub is_relative_to : FilePath → FilePath → Bool
is_relative_to p [] = true
is_relative_to [] (d ∷ root) = false
is_relative_to (c ∷ p) (d ∷ root) = codes_eq c d && is_relative_to p root

abbrev pub write : FilePath → Option Bytes → Disk → Disk
write p content disk q = if path_eq q p then content else disk q

abbrev pub extended : Bytes → Option Bytes → Option Bytes
extended chunk none = none
extended chunk (some content) = some (content ++ chunk)

-- A write to an open file: one that was unlinked meanwhile stays away.
abbrev pub append : FilePath → Bytes → Disk → Disk
append p chunk disk = write p (extended chunk (disk p)) disk

-- The loop of `save`, after `size` bytes
unfoldable pub pump : Device → FilePath → ℕ → Chunks Disk → Exec Disk ℕ
pump device p size done disk = (ok size, disk)
pump device p size (raises e) disk = (err e, disk)
pump device p size (yields chunk rest) disk =
    let after = pump device p (size + length chunk) rest (append p chunk disk) in
    if device.accepts p (size + length chunk) then after else (err other_exception, disk)
pump device p size (does act rest) disk = resume (λ t. pump device p size rest) (act disk)

module _ (device : Device) (root : FilePath) where
  -- `_path`
  unfoldable pub path_of : String → Result FilePath
  path_of key =
      let candidate = joins root (codes key) in
      if is_relative_to candidate root then ok candidate else err value_error

  abbrev pub at_path : {A : Type 0} → (FilePath → Exec Disk A) → Result FilePath → Exec Disk A
  at_path go (ok p) disk = go p disk
  at_path go (err e) disk = (err e, disk)

  -- path.open("wb") creates or empties the file.
  abbrev pub save_at : String → Chunks Disk → FilePath → Exec Disk StoredFile
  save_at key chunks p disk =
      if device.is_writable p
      then resume (λ size. pure (record { key = key; size_bytes = size }))
          (pump device p 0 chunks (write p (some []) disk))
      else (err other_exception, disk)

  unfoldable pub save : String → Chunks Disk → Exec Disk StoredFile
  save key chunks = at_path (save_at key chunks) (path_of key)

  abbrev pub content_of : Option Bytes → Result Bytes
  content_of none = err other_exception
  content_of (some content) = ok content

  unfoldable pub open_file : String → Exec Disk Bytes
  open_file key = at_path (λ p. read (λ disk. content_of (disk p))) (path_of key)

  -- unlink(missing_ok=True)
  abbrev pub delete_at : FilePath → Exec Disk (Unit {0})
  delete_at p disk =
      if device.is_writable p then (ok tt, write p none disk) else (err other_exception, disk)

  unfoldable pub delete_file : String → Exec Disk (Unit {0})
  delete_file key = at_path delete_at (path_of key)

  abbrev pub local_storage : Storage Disk
  local_storage = record { save = save; open_file = open_file; delete = delete_file }
