-- ===== src/JobRepository.antt =====
-- cmd/syncbridge/job_repository.go: the stored jobs, their file and its migration. The file system and
-- the JSON encoding are parameters. Each operation holds the repository's mutex throughout, so that it
-- is one step here. Go's `int` has 64 bits, and a next ID wraps.
use sync_bridge.Base.{
  ℕ, ◌+◌, String, Bool, true, false, not, ◌||◌, List, [], ◌∷◌, Option, none, some, ℤ, pos, int_ltb,
  int64_suc, lookup, insert, delete, map, ◌==◌, int_keyed, nat_keyed, string_keyed, if◌then◌else◌,
}
use Prim.Native.String.{◌++◌}
use sync_bridge.Job.{
  Job, SyncAction, u64, sync_action, command_action, sync_bridge_owner, system_owner,
}
use sync_bridge.AtomicFile.{
  FileSystem, FileOwner, ReadResult, not_exist, unreadable, bytes, WriteError,
  atomic_write_file_with_fs,
}
pub mod Operations
pub mod Loading
pub mod Writing
pub mod RoundTrip
pub mod Durable
pub mod Results
pub mod Creation
mod Tests

pub record JobStore : Type 0 where
  pub schema_version : ℤ
  pub next : ℤ
  pub jobs : List Job

pub record LegacyJobStore : Type 0 where
  pub next : ℤ
  pub jobs : List Job

pub record JobRepository : Type 0 where
  pub path : String
  pub owner : FileOwner
  pub next : ℤ
  pub jobs : List (ℤ × Job)

pub data RepositoryError : Type 0 where
  job_not_found revision_conflict : RepositoryError
  empty_file invalid_json unsupported_schema invalid_v2 invalid_legacy invalid_legacy_next :
      RepositoryError
  invalid_next invalid_job duplicate_id : RepositoryError
  read_failed marshal_failed lock_failed : RepositoryError
  backup_failed persist_failed : WriteError → RepositoryError

-- The repository behind a load or a removal, and the error.
pub record Loaded : Type 0 where
  pub repository : JobRepository
  pub err : Option RepositoryError

-- The loop of `replaceLocked`. On an error the jobs before it stay.
unfoldable pub replace_jobs : List Job → JobRepository → Loaded
replace_jobs [] r = record { repository = r; err = none }
replace_jobs (job ∷ more) r =
    let rest = replace_jobs more (record r {
      next = if int_ltb job.id r.next then r.next else int64_suc job.id;
      jobs = insert job.id job r.jobs;
    }) in
    if int_ltb job.id (pos 1) || not (job.schema_version == pos 2)
    then record { repository = r; err = some invalid_job }
    else elim (lookup job.id r.jobs) [
      | some _ ↦ record { repository = r; err = some duplicate_id }
      | none ↦ rest
    ]

unfoldable pub replace_locked : ℤ → List Job → JobRepository → Loaded
replace_locked next jobs r =
    if int_ltb next (pos 1)
    then record { repository = r; err = some invalid_next }
    else replace_jobs jobs (record r { next = next; jobs = [] })

abbrev no_sync : SyncAction
no_sync = record {
  engine = "";
  source = "";
  dest = "";
  mode = "";
  compare_by = "";
  bwlimit = "";
  backup = false;
  backup_keep = pos 0;
  max_del = pos 0;
  skip_new = false;
  sys_backup = false;
  exclude = "";
}

-- The body of the loop of `migrateLegacyLocked`.
unfoldable pub migrated : Job → Job
migrated job = record job {
  schema_version = pos 2;
  revision = 1;
  enabled = not job.disabled;
  action =
      if job.kind == "command"
      then record {
        type = command_action;
        script_path = "";
        script_args = [];
        command = job.command;
        sync = no_sync;
      }
      else record {
        type = sync_action;
        script_path = "";
        script_args = [];
        command = "";
        sync = record {
          engine = job.engine;
          source = job.source;
          dest = job.dest;
          mode = job.mode;
          compare_by = job.compare_by;
          bwlimit = job.bwlimit;
          backup = job.backup;
          backup_keep = job.backup_keep;
          max_del = job.max_del;
          skip_new = job.skip_new;
          sys_backup = job.sys_backup;
          exclude = job.exclude;
        };
      };
  scheduler_owner = if job.backend == "system" then system_owner else sync_bridge_owner;
  needs_review = true;
}

-- `sort.Slice` by ID.
abbrev pub insert_by_id : Job → List Job → List Job
insert_by_id job [] = job ∷ []
insert_by_id job (other ∷ more) =
    let rest = insert_by_id job more in
    if int_ltb other.id job.id then other ∷ rest else job ∷ other ∷ more

abbrev pub sort_by_id : List (ℤ × Job) → List Job
sort_by_id [] = []
sort_by_id ((id, job) ∷ more) = insert_by_id job (sort_by_id more)

-- `List`
unfoldable pub list_jobs : JobRepository → List Job
list_jobs r = sort_by_id r.jobs

-- `Get`
unfoldable pub get_job : ℤ → JobRepository → Option Job
get_job id r = lookup id r.jobs
