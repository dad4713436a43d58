-- ===== src/Scheduler/Tests.antt =====
-- One cron job whose revision changes, over an engine that hands out entry 7.
use sync_bridge.Base.{
  ℕ, ◌+◌, String, true, false, List, [], ◌∷◌, some, none, pos, lookup, insert, delete, int_keyed,
  ◌≡◌, refl, arith,
}
use sync_bridge.Job.{Job, command_action, cron_trigger, fixed, sync_bridge_owner}
use sync_bridge.Scheduler.{
  Scheduler, ScheduledJob, CronEngine, added_entry, reconcile, fire, wanted, plan, plan_entries,
  plan_desired, plan_current, plan_added, install, commit, scheduler_eligible,
}
use sync_bridge.Scheduler.Firing.{reconcile-fire}

abbrev pub nightly : ℕ → Job
nightly revision = record {
  schema_version = pos 2;
  id = pos 1;
  revision = revision;
  name = "backup";
  enabled = true;
  needs_review = false;
  action = record {
    type = command_action;
    script_path = "";
    script_args = [];
    command = "true";
    sync = record {
      engine = "";
      source = "";
      dest = "";
      mode = "";
      compare_by = "";
      bwlimit = "";
      backup = false;
      backup_keep = pos 0;
      max_del = pos 0;
      skip_new = false;
      sys_backup = false;
      exclude = "";
    };
  };
  identity = record { mode = fixed; user = "u"; uid = pos 7; group = "g"; gid = pos 8 };
  execution = record {
    working_directory = "";
    environment = [];
    umask = 0;
    timeout_seconds = pos 0;
    stop_grace_seconds = pos 0;
    overlap = "skip";
  };
  trigger = cron_trigger;
  scheduler_owner = sync_bridge_owner;
  kind = "";
  command = "";
  backend = "";
  source = "";
  dest = "";
  engine = "";
  mode = "";
  cron = "nightly";
  watch_glob = "";
  watch_mode = "";
  debounce = pos 0;
  poll_sec = pos 0;
  timeout = pos 0;
  compare_by = "";
  bwlimit = "";
  backup = false;
  backup_keep = pos 0;
  max_del = pos 0;
  skip_new = false;
  sys_backup = false;
  exclude = "";
  disabled = false;
  last_run = "";
  last_stat = "";
}

abbrev fields : String → List String
fields text = "0" ∷ "3" ∷ "*" ∷ "*" ∷ "*" ∷ []

abbrev engine : CronEngine ℕ
engine = record {
  add_func = λ spec id revision generation c. (c + 1, added_entry (pos 7));
  remove_entry = λ entry c. c + 100;
}

abbrev idle : Scheduler
idle = record { entries = []; errors = []; next_gen = 0; closed = false }

abbrev standing : ScheduledJob
standing = record { entry = pos 7; revision = 3; spec = "0 0 3 * * *"; generation = 1 }

abbrev running : Scheduler
running = record { entries = (pos 1, standing) ∷ []; errors = []; next_gen = 1; closed = false }

-- The first reconciliation registers the job, one without change leaves it, and one with a new revision
-- replaces it, so that the old callback starts nothing.
registers : reconcile engine fields (nightly 3 ∷ []) idle 0 ≡ (running, 1, none)
unfolding reconcile wanted scheduler_eligible plan plan_entries plan_desired plan_current plan_added
    install commit fire lookup insert delete
registers = refl

leaves : reconcile engine fields (nightly 3 ∷ []) running 1 ≡ (running, 1, none)
unfolding reconcile wanted scheduler_eligible plan plan_entries plan_desired plan_current plan_added
    install commit fire lookup insert delete
leaves = refl

replaces : fire (pos 1) 3 1 (reconcile engine fields (nightly 4 ∷ []) running 1).0 ≡ none
unfolding reconcile wanted scheduler_eligible plan plan_entries plan_desired plan_current plan_added
    install commit fire lookup insert delete
replaces = refl

reconcile-fire_example :
    lookup (pos 1) (reconcile engine fields (nightly 3 ∷ []) running 1).0.entries ≡ some standing
unfolding reconcile wanted scheduler_eligible plan plan_entries plan_desired plan_current plan_added
    install commit fire lookup insert delete
reconcile-fire_example =
    reconcile-fire engine fields (nightly 3 ∷ []) running 1 (pos 1) standing (refl, tt)
      (omega arith) refl (omega arith) (λ q. cc q)
