-- ===== src/AtomicFile/Tests.antt =====
-- Writes in the memory file system.
use sync_bridge.Base.{pos, [], ◌∷◌, ◌≡◌, refl, none, some, lookup, insert, delete, string_keyed}
use sync_bridge.AtomicFile.{
  FileOwner, atomic_write_file_with_fs, create_temporary, fill_temporary, or_cleanup, replace_file,
  sync_parent, cleanup,
}
use sync_bridge.AtomicFile.Effect.{IsAtomic, atomic_write_file_with_fs-IsAtomic}
use sync_bridge.AtomicFile.Memory.{memory, memory-Lawful, move, move_found, create_t, create_free}

abbrev root : FileOwner
root = record { uid = pos 0; gid = pos 0 }

written :
    atomic_write_file_with_fs memory "jobs" "new" 384 root (("jobs", "old") ∷ [])
    ≡ (("jobs", "new") ∷ [], none)
unfolding atomic_write_file_with_fs fill_temporary or_cleanup replace_file sync_parent cleanup move
    create_t create_free move_found insert delete lookup
written = refl

blocked :
    atomic_write_file_with_fs memory "jobs" "new" 384 root (("t", "x") ∷ [])
    ≡ (("t", "x") ∷ [], some create_temporary)
unfolding atomic_write_file_with_fs fill_temporary or_cleanup replace_file sync_parent cleanup move
    create_t create_free move_found insert delete lookup
blocked = refl

atomic_write_file_with_fs-IsAtomic_example :
    IsAtomic memory "jobs" "new"
      (("jobs", "old") ∷ [])
      (atomic_write_file_with_fs memory "jobs" "new" 384 root (("jobs", "old") ∷ []))
atomic_write_file_with_fs-IsAtomic_example =
    atomic_write_file_with_fs-IsAtomic memory memory-Lawful "jobs" "new" 384 root
      (("jobs", "old") ∷ [])
