-- ===== src/Storage/Local/Tests.antt =====
-- Runs of app/core/storage/local.py and app/db/transactional_hooks.py.
use fastapi_template.Prelude.{ℕ, ◌≡◌, refl, true, false, none, some, List, [], ◌∷◌, ◌++◌, codes}
use fastapi_template.Errors.{value_error, other_exception, ok, err}
use fastapi_template.Storage.{Chunks, raises, yields, does, IsStore}
use fastapi_template.Storage.Local.{
  FilePath, Disk, Device, path_of, save, delete_file, local_storage,
}
use fastapi_template.Storage.Local.Inside.{delete_file-Spares, local_storage-Spares}
use fastapi_template.Storage.Local.Stores.{local_store, local_storage-refines}
use fastapi_template.Hooks.{committed, rolled_back, Pair, Event, resolves, turns, deregistered}
use fastapi_template.Hooks.Resolving.{first_outer, run-resolves}
use fastapi_template.Storage.Reference.{
  Call, saves, deletes, opens, save_reply, delete_reply, open_reply,
}
use fastapi_template.Hooks
use fastapi_template.Storage.Reference

abbrev pub root : FilePath
root = codes "srv" ∷ codes "files" ∷ []

abbrev pub open_device : Device
open_device = record { is_writable = λ p. true; accepts = λ p n. true }

abbrev pub empty_disk : Disk
empty_disk p = none

abbrev elsewhere : FilePath
elsewhere = codes "srv" ∷ codes "keys" ∷ []

escaping : path_of open_device root "../keys" ≡ err value_error
unfolding path_of
escaping = refl

nested : path_of open_device root "a/./b/../c" ≡ ok (root ++ codes "a" ∷ codes "c" ∷ [])
unfolding path_of
nested = refl

abbrev cut : Chunks Disk
cut = yields (1 ∷ []) (does (delete_file open_device root "../keys") (raises value_error))

local_storage-Spares_example :
    ((save open_device root "/srv/keys" cut empty_disk).1 elsewhere ≡ none)
    × ((delete_file open_device root "/srv/keys" empty_disk).1 elsewhere ≡ none)
local_storage-Spares_example =
    local_storage-Spares open_device root elsewhere refl "/srv/keys" cut empty_disk
      (delete_file-Spares open_device root elsewhere refl "../keys", tt)

abbrev pub open_store : IsStore (local_storage open_device root)
open_store = local_store open_device root (λ p. refl) (λ p n. refl)

abbrev calls : List Call
calls = saves "a" ((1 ∷ []) ∷ (2 ∷ 3 ∷ []) ∷ []) ∷ opens "a" ∷ deletes "a" ∷ opens "a" ∷ []

local_storage-refines_example :
    Reference.run (local_storage open_device root) calls empty_disk
    ≡ save_reply (ok (record { key = "a"; size_bytes = 3 }))
      ∷ open_reply (ok (1 ∷ 2 ∷ 3 ∷ []))
      ∷ delete_reply (ok tt)
      ∷ open_reply (err other_exception)
      ∷ []
unfolding Reference.reference
local_storage-refines_example =
    local_storage-refines open_device root (λ p. refl) (λ p n. refl) calls empty_disk
      (refl, (refl, (refl, (refl, tt))))

-- A savepoint is released, then the transaction rolls back, and another one commits.
abbrev events : List Event
events =
    resolves committed true ∷ resolves rolled_back false ∷ resolves committed false ∷ turns ∷ []

abbrev waiting_pairs : List (Pair ℕ)
waiting_pairs =
    record { on_commit = some 1; on_rollback = some 2; retired = false }
    ∷ record { on_commit = some 3; on_rollback = none; retired = false }
    ∷ []

run-resolves_example :
    ((Hooks.run events waiting_pairs).0 ≡ 2 ∷ [])
    × (deregistered (Hooks.run events waiting_pairs).1 ≡ [])
unfolding first_outer
run-resolves_example = run-resolves events waiting_pairs
