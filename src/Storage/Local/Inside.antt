-- ===== src/Storage/Local/Inside.antt =====
-- No key makes LocalStorage of app/core/storage/local.py write a file that is not below its root.
use fastapi_template.Prelude.{
  ℕ, ◌+◌, String, ◌≡◌, refl, ◌∙◌, inl, inr, true, false, some, [], ◌∷◌, arith, Bool-cases, length,
  codes, codes_eq-eq,
}
use fastapi_template.Errors.{Result, ok, err, Result-cases}
use fastapi_template.Exec.{Exec, pure, resume}
use fastapi_template.Storage.{StoredFile, Chunks, done, raises, yields, does}
use fastapi_template.Storage.Local.{
  FilePath, Disk, Device, path_eq, joins, is_relative_to, write, append, pump, path_of, at_path,
  save_at, save, delete_at, delete_file,
}

pub path_eq-eq : (p q : FilePath) → path_eq p q ≡ true → p ≡ q
path_eq-eq [] [] h = refl
path_eq-eq [] (d ∷ q) h = cc
path_eq-eq (c ∷ p) [] h = cc
path_eq-eq (c ∷ p) (d ∷ q) h = ground (arith, path_eq-eq p q, codes_eq-eq c d)

module _ (device : Device) (root : FilePath) (q : FilePath)
    (outside : is_relative_to q root ≡ false) where
  -- What an action leaves at `q`.
  abbrev pub Spares : {A : Type 0} → Exec Disk A → Type 0
  Spares m = (disk : Disk) → (m disk).1 q ≡ disk q

  -- The actions within a stream spare `q`.
  abbrev pub SparesAll : Chunks Disk → Type 0
  SparesAll done = Unit
  SparesAll (raises e) = Unit
  SparesAll (yields chunk rest) = SparesAll rest
  SparesAll (does act rest) = Spares act × SparesAll rest

  apart : (p : FilePath) → is_relative_to p root ≡ true → path_eq q p ≡ false
  apart p inside = elim (Bool-cases (path_eq q p)) [
    | inr differs ↦ differs
    | inl same ↦ absurd (ground (arith, path_eq-eq q p same))
  ]

  pump-Spares :
      (p : FilePath)
      → is_relative_to p root ≡ true
      → (chunks : Chunks Disk) → SparesAll chunks
      → (size : ℕ) → Spares (pump device p size chunks)
  unfolding pump
  pump-Spares p inside done h size disk = refl
  pump-Spares p inside (raises e) h size disk = refl
  pump-Spares p inside (yields chunk rest) h size disk =
      elim (Bool-cases (device.accepts p (size + length chunk))) [
        | inr full ↦ rw full refl
        | inl fits ↦ rw fits (
            pump-Spares p inside rest h (size + length chunk) (append p chunk disk)
            ∙ rw (apart p inside) refl)
      ]
  pump-Spares p inside (does act rest) h size disk = elim (Result-cases (act disk).0) [
    | inl (e, raised) ↦ rw raised (h.0 disk)
    | inr (t, went) ↦ rw went (pump-Spares p inside rest h.1 size (act disk).1 ∙ h.0 disk)
  ]

  at_path-Spares :
      {A : Type 0} (key : String) (go : FilePath → Exec Disk A)
      → ((p : FilePath) → is_relative_to p root ≡ true → Spares (go p))
      → Spares (at_path device root go (path_of device root key))
  unfolding path_of
  at_path-Spares key go spares disk =
      elim (Bool-cases (is_relative_to (joins root (codes key)) root)) [
        | inl inside ↦ rw inside (spares (joins root (codes key)) inside disk)
        | inr escapes ↦ rw escapes refl
      ]

  pub delete_file-Spares : (key : String) → Spares (delete_file device root key)
  unfolding delete_file
  delete_file-Spares key = at_path-Spares key (delete_at device root) deletes
    where
      deletes : (p : FilePath) → is_relative_to p root ≡ true → Spares (delete_at device root p)
      deletes p inside disk = ground (arith, apart p inside)

  saved :
      (key : String) (r : Result ℕ × Disk)
      → (resume {B = StoredFile} (λ size. pure (record { key = key; size_bytes = size })) r).1 ≡ r.1
  saved key (ok n, disk) = refl
  saved key (err e, disk) = refl

  pub save-Spares :
      (key : String) (chunks : Chunks Disk)
      → SparesAll chunks
      → Spares (save device root key chunks)
  unfolding save
  save-Spares key chunks h = at_path-Spares key (save_at device root key chunks) saves
    where
      saves :
          (p : FilePath) → is_relative_to p root ≡ true → Spares (save_at device root key chunks p)
      saves p inside disk = elim (Bool-cases (device.is_writable p)) [
        | inr refused ↦ rw refused refl
        | inl open_ ↦
            rw (open_, saved key (pump device p 0 chunks (write p (some []) disk)))
              (pump-Spares p inside chunks h 0 (write p (some []) disk) ∙ rw (apart p inside) refl)
      ]

  -- A file that is not below the root of the store is left as it was by a save and by a delete of
  -- any key, dots, slashes and all, as long as the actions within the stream that is saved leave
  -- it alone.
  pub local_storage-Spares :
      (key : String) (chunks : Chunks Disk) (disk : Disk)
      → SparesAll chunks
      → ((save device root key chunks disk).1 q ≡ disk q)
        × ((delete_file device root key disk).1 q ≡ disk q)
  local_storage-Spares key chunks disk h =
      (save-Spares key chunks h disk, delete_file-Spares key disk)
