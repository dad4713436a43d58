-- ===== src/JobRepository/Tests.antt =====
-- A repository on the memory file system: two changes of its file, and the theorems at them.
use sync_bridge.Base.{
  All, subst, if◌then◌else◌, ℕ, true, false, [], ◌∷◌, none, some, pos, lookup, insert, delete, ◌==◌,
  int_keyed, nat_keyed, string_keyed, if◌then◌else◌, ◌≡◌, refl, subst, String,
}
use sync_bridge.Job.{Job, command_action, manual_trigger, fixed, sync_bridge_owner}
use sync_bridge.AtomicFile.{
  atomic_write_file_with_fs, fill_temporary, or_cleanup, replace_file, sync_parent, cleanup,
}
use sync_bridge.AtomicFile.Memory.{Files, memory, move, move_found, create_t, create_free}
use sync_bridge.JobRepository.{
  JobRepository, JobStore, revision_conflict, replace_locked, replace_jobs,
}
use sync_bridge.JobRepository.Operations.{
  Environment, load_locked, load_text, load_v2, update_job, update_loaded, update_found,
  persist_candidate_locked, with_exclusive_file_lock,
}
use sync_bridge.JobRepository.Loading.{IsSmall, AtMost}

abbrev sample : ℕ → Job
sample revision = record {
  schema_version = pos 2;
  id = pos 1;
  revision = revision;
  name = "backup";
  enabled = true;
  needs_review = false;
  action = record {
    type = command_action;
    script_path = "";
    script_args = [];
    command = "true";
    sync = record {
      engine = "";
      source = "";
      dest = "";
      mode = "";
      compare_by = "";
      bwlimit = "";
      backup = false;
      backup_keep = pos 0;
      max_del = pos 0;
      skip_new = false;
      sys_backup = false;
      exclude = "";
    };
  };
  identity = record { mode = fixed; user = "u"; uid = pos 7; group = "g"; gid = pos 8 };
  execution = record {
    working_directory = "";
    environment = [];
    umask = 0;
    timeout_seconds = pos 0;
    stop_grace_seconds = pos 0;
    overlap = "skip";
  };
  trigger = manual_trigger;
  scheduler_owner = sync_bridge_owner;
  kind = "";
  command = "";
  backend = "";
  source = "";
  dest = "";
  engine = "";
  mode = "";
  cron = "";
  watch_glob = "";
  watch_mode = "";
  debounce = pos 0;
  poll_sec = pos 0;
  timeout = pos 0;
  compare_by = "";
  bwlimit = "";
  backup = false;
  backup_keep = pos 0;
  max_del = pos 0;
  skip_new = false;
  sys_backup = false;
  exclude = "";
  disabled = false;
  last_run = "";
  last_stat = "";
}

-- An encoding that knows two texts.
abbrev env : JobStore → JobStore → Environment Files
env before after = record {
  parse_header = λ _. some (some (pos 2));
  parse_v2 = λ text. if text == "new\n" then some after else some before;
  parse_legacy = λ _. none;
  marshal = λ _. some "new";
  stamp = λ _. "now";
  acquire = λ _ s. (s, true);
  unlock = λ _ s. s;
}

abbrev before : JobStore
before = record { schema_version = pos 2; next = pos 2; jobs = sample 3 ∷ [] }

abbrev after : JobStore
after = record { schema_version = pos 2; next = pos 2; jobs = sample 4 ∷ [] }

abbrev repo : JobRepository
repo = record {
  path = "jobs";
  owner = record { uid = pos 0; gid = pos 0 };
  next = pos 1;
  jobs = [];
}

abbrev files : Files
files = ("jobs", "old") ∷ []

-- A second update with the same revision.
conflict :
    (update_job memory (env before after) (pos 1) 3 (sample 0) repo (("jobs", "new\n") ∷ [])).1.err
    ≡ some revision_conflict
unfolding update_job update_loaded update_found persist_candidate_locked with_exclusive_file_lock
    load_locked load_text load_v2 replace_locked replace_jobs atomic_write_file_with_fs
    fill_temporary or_cleanup replace_file sync_parent cleanup move move_found create_t create_free
    lookup insert delete
conflict = refl

abbrev Small : JobStore → Type 0
Small store = AtMost store.next × All (λ (j : Job). IsSmall j.id) store.jobs

abbrev first : JobStore
first = record { schema_version = pos 2; next = pos 2; jobs = sample 1 ∷ [] }
