-- ===== src/JobRepository/Operations.antt =====
-- The operations of job_repository.go on the file system: loading, persisting, and the changes under
-- the file lock.
use sync_bridge.Base.{
  ℕ, ◌+◌, String, Bool, not, List, [], Option, none, some, ℤ, pos, int_ltb, int64_suc, lookup,
  insert, delete, map, ◌==◌, int_keyed, nat_keyed, string_keyed, if◌then◌else◌,
}
use Prim.Native.String.{◌++◌}
use sync_bridge.Job.{Job, u64}
use sync_bridge.AtomicFile.{
  FileSystem, FileOwner, not_exist, unreadable, bytes, WriteError, atomic_write_file_with_fs,
}
use sync_bridge.JobRepository.{
  JobStore, LegacyJobStore, JobRepository, Loaded, RepositoryError, empty_file, invalid_json,
  unsupported_schema, invalid_v2, invalid_legacy, invalid_legacy_next, job_not_found,
  revision_conflict, read_failed, marshal_failed, lock_failed, backup_failed, persist_failed,
  replace_locked, migrated, sort_by_id,
}

-- What the repository uses of encoding/json, of the clock and of the advisory file lock. The header of a
-- file is its `schemaVersion`, where it has one; `stamp` prints the time.
pub record Environment (S : Type 0) : Type 0 where
  pub parse_header : String → Option (Option ℤ)
  pub parse_v2 : String → Option JobStore
  pub parse_legacy : String → Option LegacyJobStore
  pub marshal : JobStore → Option String
  pub stamp : S → String
  pub acquire : String → S → S × Bool
  pub unlock : String → S → S

-- What `Create` and `Update` return: a job, `none` standing for the zero value, and an error.
pub record Answer : Type 0 where
  pub repository : JobRepository
  pub job : Option Job
  pub err : Option RepositoryError

abbrev pub persist_error : Option WriteError → Option RepositoryError
persist_error none = none
persist_error (some e) = some (persist_failed e)

-- The job that `Create` stores, and the one that `Update` puts in the place of another.
abbrev pub created_job : Job → JobRepository → Job
created_job job r = record job { schema_version = pos 2; id = r.next; revision = 1 }

abbrev pub updated_job : ℤ → Job → Job → Job
updated_job id current job = record job {
  schema_version = pos 2;
  id = id;
  revision = u64 (current.revision + 1);
}

module _ {S : Type 0} (fs : FileSystem S) (env : Environment S) where
  unfoldable pub persist_candidate_locked :
      ℤ → List (ℤ × Job) → JobRepository → S → S × Option RepositoryError
  persist_candidate_locked next jobs r s =
      elim (env.marshal (record { schema_version = pos 2; next = next; jobs = sort_by_id jobs })) [
        | none ↦ (s, some marshal_failed)
        | some d ↦
            let done = atomic_write_file_with_fs fs r.path (d ++ "\n") 384 r.owner s in
            (done.0, persist_error done.1)
      ]

  -- The end of `migrateLegacyLocked`: the exact old bytes are backed up before the new file is written.
  unfoldable pub migrate_replaced : String → S → Loaded → S × Loaded
  unfolding persist_candidate_locked
  migrate_replaced old s l =
      let r = l.repository in
      let backup =
        atomic_write_file_with_fs fs (r.path ++ ".v1." ++ env.stamp s ++ ".bak") old 384 r.owner
          s in
      let done = persist_candidate_locked r.next r.jobs r backup.0 in
      elim l.err [
        | some e ↦ (s, l)
        | none ↦ elim backup.1 [
          | some e ↦ (backup.0, record { repository = r; err = some (backup_failed e) })
          | none ↦ (done.0, record { repository = r; err = done.1 })
        ]
      ]

  unfoldable pub migrate_legacy_locked : String → JobRepository → S → S × Loaded
  unfolding migrate_replaced replace_locked migrated
  migrate_legacy_locked old r s = elim (env.parse_legacy old) [
    | none ↦ (s, record { repository = r; err = some invalid_legacy })
    | some legacy ↦
        if int_ltb legacy.next (pos 1)
        then (s, record { repository = r; err = some invalid_legacy_next })
        else migrate_replaced old s (replace_locked legacy.next (map migrated legacy.jobs) r)
  ]

  -- The second reading of a file whose header has a schema version.
  unfoldable pub load_v2 : String → ℤ → JobRepository → S → S × Loaded
  unfolding replace_locked
  load_v2 text version r s =
      if not (version == pos 2)
      then (s, record { repository = r; err = some unsupported_schema })
      else elim (env.parse_v2 text) [
        | none ↦ (s, record { repository = r; err = some invalid_v2 })
        | some store ↦ (s, replace_locked store.next store.jobs r)
      ]

  unfoldable pub load_text : String → JobRepository → S → S × Loaded
  unfolding load_v2 migrate_legacy_locked
  load_text text r s =
      if text == ""
      then (s, record { repository = r; err = some empty_file })
      else elim (env.parse_header text) [
        | none ↦ (s, record { repository = r; err = some invalid_json })
        | some none ↦ migrate_legacy_locked text r s
        | some (some version) ↦ load_v2 text version r s
      ]

  unfoldable pub load_locked : JobRepository → S → S × Loaded
  unfolding load_text
  load_locked r s = elim (fs.read_file r.path s) [
    | not_exist ↦ (s, record { repository = record r { next = pos 1; jobs = [] }; err = none })
    | unreadable ↦ (s, record { repository = r; err = some read_failed })
    | bytes text ↦ load_text text r s
  ]

  -- `withExclusiveFileLock`: the body under the lock, or an error of the lock.
  unfoldable pub with_exclusive_file_lock {ℓ} : {A : Type ℓ} → String → A → (S → S × A) → S → S × A
  with_exclusive_file_lock path failed body s =
      let lock_path = path ++ ".lock" in
      let made = fs.mkdir_all (fs.dir lock_path) 448 s in
      let held = env.acquire lock_path made.0 in
      let done = body held.0 in
      if not made.1
      then (made.0, failed)
      else (if not held.1 then (held.0, failed) else (env.unlock lock_path done.0, done.1))

  -- `OpenJobRepository`
  unfoldable pub open_job_repository : String → FileOwner → S → S × Loaded
  unfolding load_locked with_exclusive_file_lock
  open_job_repository path owner s =
      let repo : JobRepository = record { path = path; owner = owner; next = pos 1; jobs = [] } in
      with_exclusive_file_lock path (record { repository = repo; err = some lock_failed })
        (load_locked repo) s

  -- `Create` with the job made.
  unfoldable pub create_new : Job → JobRepository → S → S × Answer
  unfolding persist_candidate_locked
  create_new created r s =
      let jobs = insert created.id created r.jobs in
      let done = persist_candidate_locked (int64_suc r.next) jobs r s in
      elim done.1 [
        | some e ↦ (done.0, record { repository = r; job = some created; err = some e })
        | none ↦ (
          done.0,
          record {
            repository = record r { next = int64_suc r.next; jobs = jobs };
            job = some created;
            err = none;
          },
        )
      ]

  -- `Create` behind the load.
  unfoldable pub create_loaded : Job → S × Loaded → S × Answer
  unfolding create_new
  create_loaded job (s, l) =
      let r = l.repository in
      elim l.err [
        | some e ↦ (s, record { repository = r; job = none; err = some e })
        | none ↦ create_new (created_job job r) r s
      ]

  unfoldable pub create_job : Job → JobRepository → S → S × Answer
  unfolding create_loaded load_locked with_exclusive_file_lock
  create_job job r s =
      with_exclusive_file_lock r.path
        (record { repository = r; job = none; err = some lock_failed })
        (λ t. create_loaded job (load_locked r t)) s

  -- `Update` and `Delete` behind the load, on the job with the ID.
  unfoldable pub update_found : ℤ → ℕ → Job → JobRepository → Option Job → S → S × Answer
  unfolding persist_candidate_locked
  update_found id revision job r none s =
      (s, record { repository = r; job = none; err = some job_not_found })
  update_found id revision job r (some current) s =
      let updated = updated_job id current job in
      let jobs = insert id updated r.jobs in
      let done = persist_candidate_locked r.next jobs r s in
      if not (current.revision == revision)
      then (s, record { repository = r; job = none; err = some revision_conflict })
      else elim done.1 [
        | some e ↦ (done.0, record { repository = r; job = none; err = some e })
        | none ↦ (
          done.0,
          record { repository = record r { jobs = jobs }; job = some updated; err = none },
        )
      ]

  unfoldable pub update_loaded : ℤ → ℕ → Job → S × Loaded → S × Answer
  unfolding update_found
  update_loaded id revision job (s, l) =
      let r = l.repository in
      elim l.err [
        | some e ↦ (s, record { repository = r; job = none; err = some e })
        | none ↦ update_found id revision job r (lookup id r.jobs) s
      ]

  unfoldable pub update_job : ℤ → ℕ → Job → JobRepository → S → S × Answer
  unfolding update_loaded load_locked with_exclusive_file_lock
  update_job id revision job r s =
      with_exclusive_file_lock r.path
        (record { repository = r; job = none; err = some lock_failed })
        (λ t. update_loaded id revision job (load_locked r t)) s

  unfoldable pub delete_found : ℤ → ℕ → JobRepository → Option Job → S → S × Loaded
  unfolding persist_candidate_locked
  delete_found id revision r none s = (s, record { repository = r; err = some job_not_found })
  delete_found id revision r (some current) s =
      let jobs = delete id r.jobs in
      let done = persist_candidate_locked r.next jobs r s in
      if not (current.revision == revision)
      then (s, record { repository = r; err = some revision_conflict })
      else elim done.1 [
        | some e ↦ (done.0, record { repository = r; err = some e })
        | none ↦ (done.0, record { repository = record r { jobs = jobs }; err = none })
      ]

  unfoldable pub delete_loaded : ℤ → ℕ → S × Loaded → S × Loaded
  unfolding delete_found
  delete_loaded id revision (s, l) =
      let r = l.repository in
      elim l.err [ some e ↦ (s, l) | none ↦ delete_found id revision r (lookup id r.jobs) s ]

  unfoldable pub delete_job : ℤ → ℕ → JobRepository → S → S × Loaded
  unfolding delete_loaded load_locked with_exclusive_file_lock
  delete_job id revision r s =
      with_exclusive_file_lock r.path (record { repository = r; err = some lock_failed })
        (λ t. delete_loaded id revision (load_locked r t)) s
