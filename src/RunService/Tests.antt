-- ===== src/RunService/Tests.antt =====
-- One job under each overlap policy, and the theorems of run_service.go at its runs.
use native.Mathlib.Omega.{arith}
use sync_bridge.Base.{
  ℕ, pos, ◌≡◌, refl, ◌⊎◌, inl, inr, String, true, false, [], ◌∷◌, none, some, lookup, insert,
  int_keyed, nat_keyed,
}
use sync_bridge.Job.{Job, command_action, manual_trigger, fixed, sync_bridge_owner}
use sync_bridge.LogBuffer.{LogLimits}
use sync_bridge.RunService.State.{
  manual_origin, StartRunInput, RunState, PlanIdentity, compiling, installing, installed, launching,
  executing, Service, new_run_service,
}
use sync_bridge.RunService.Start.{new_run, start}
use sync_bridge.RunService.Worker.{compiled, wrapper_installed, proceeds, launched, advance}
use sync_bridge.RunService.Control.{stop, stopped}
use sync_bridge.RunService.Consistency.{Present}
use sync_bridge.RunService.Consistency.Reserving.{IsFresh}
use sync_bridge.RunService.Consistency.Steps.{Reach, here, next, starts, advances}
use sync_bridge.RunService.Consistency.Reachable.{Reach-IsConsistent}
use sync_bridge.RunService.Exclusion.{
  IsActive, IsPending, live_in_slot, two_unended, executor_exclusive, never_panics,
}
use sync_bridge.RunService.Outcomes.{Enqueued, start_enqueues, stop_reaches_handle}

abbrev small : LogLimits
small = record { max_bytes = 64; max_line_bytes = 16; max_runs = 2; max_age = 100 }

abbrev job : String → Job
job overlap = record {
  schema_version = pos 2;
  id = pos 1;
  revision = 3;
  name = "backup";
  enabled = true;
  needs_review = false;
  action = record {
    type = command_action;
    script_path = "";
    script_args = [];
    command = "true";
    sync = record {
      engine = "";
      source = "";
      dest = "";
      mode = "";
      compare_by = "";
      bwlimit = "";
      backup = false;
      backup_keep = pos 0;
      max_del = pos 0;
      skip_new = false;
      sys_backup = false;
      exclude = "";
    };
  };
  identity = record { mode = fixed; user = "u"; uid = pos 7; group = "g"; gid = pos 8 };
  execution = record {
    working_directory = "";
    environment = [];
    umask = 0;
    timeout_seconds = pos 0;
    stop_grace_seconds = pos 0;
    overlap = overlap;
  };
  trigger = manual_trigger;
  scheduler_owner = sync_bridge_owner;
  kind = "";
  command = "";
  backend = "";
  source = "";
  dest = "";
  engine = "";
  mode = "";
  cron = "";
  watch_glob = "";
  watch_mode = "";
  debounce = pos 0;
  poll_sec = pos 0;
  timeout = pos 0;
  compare_by = "";
  bwlimit = "";
  backup = false;
  backup_keep = pos 0;
  max_del = pos 0;
  skip_new = false;
  sys_backup = false;
  exclude = "";
  disabled = false;
  last_run = "";
  last_stat = "";
}

abbrev input : StartRunInput
input = record { job_id = pos 1; revision = 3; origin = manual_origin; dry_run = false }

abbrev plan : PlanIdentity
plan = record { uid = pos 7; gid = pos 8 }

abbrev latest : Job
latest = job "queue-latest"

abbrev idle : Service
idle = new_run_service small

abbrev busy : Service
busy = (start 5 input (some latest) (some 10) idle).0

abbrev behind : Service
behind = (start 6 input (some latest) (some 11) busy).0

abbrev launching_run : Service
launching_run = advance 9 10 (launching plan) proceeds (
    advance 8 10 (installed none plan) proceeds (
      advance 8 10 (installing plan) (wrapper_installed none)
        (advance 7 10 compiling (compiled plan none) behind)))

busy-IsFresh : IsFresh 10 idle
unfolding new_run_service lookup
busy-IsFresh = record { no_run = refl; no_worker = refl }

busy_reached : Reach small busy
busy_reached = next here (starts 5 input (some latest) 10 busy-IsFresh)

behind-IsFresh : IsFresh 11 busy
unfolding new_run_service lookup insert start
behind-IsFresh = record { no_run = refl; no_worker = refl }

behind_reached : Reach small behind
behind_reached = next busy_reached (starts 6 input (some latest) 11 behind-IsFresh)

launching_reached : Reach small launching_run
unfolding new_run_service lookup insert start advance
launching_reached =
    next
      (next
        (next (next behind_reached (advances 7 10 compiling (compiled plan none) refl tt))
          (advances 8 10 (installing plan) (wrapper_installed none) refl tt))
        (advances 8 10 (installed none plan) proceeds refl tt))
      (advances 9 10 (launching plan) proceeds refl tt)

abbrev first_run : RunState
first_run = new_run 5 10 latest input small

abbrev second_run : RunState
second_run = new_run 6 11 latest input small

live_in_slot_example :
    IsActive behind 11 second_run
    ⊎ (IsPending behind 11 second_run × Present (lookup second_run.snapshot.job_id behind.active))
unfolding new_run_service lookup insert start new_run
live_in_slot_example = live_in_slot behind_reached 11 second_run refl refl

two_unended_example :
    (IsActive behind 10 first_run × IsPending behind 11 second_run)
    ⊎ (IsPending behind 10 first_run × IsActive behind 11 second_run)
unfolding new_run_service lookup insert start new_run
two_unended_example =
    two_unended behind_reached 10 11 first_run second_run (λ e. absurd (omega arith)) refl refl refl
      refl refl

executor_exclusive_example : ◌≡◌ {A = ℕ} 10 10
unfolding new_run_service lookup insert start advance new_run
executor_exclusive_example =
    executor_exclusive launching_reached 10 10 (record first_run { starting = true })
      (record first_run { starting = true }) refl refl (inl (refl, refl)) (inl (refl, refl)) refl

never_panics_example : launching_run.panicked ≡ false
never_panics_example = never_panics launching_reached

start_enqueues_example : Enqueued second_run busy (start 6 input (some latest) (some 11) busy)
unfolding new_run_service lookup insert start
start_enqueues_example =
    start_enqueues 6 input latest 11 busy (inr refl) 10 (Reach-IsConsistent busy_reached)
      behind-IsFresh refl refl

stop_reaches_handle_example :
    let (s', outcome) = stop 12 10 launching_run in
    (outcome ≡ stopped)
    × ((advance 13 10 (executing plan) (launched 4711) s').stop_calls
        ≡ 4711 ∷ launching_run.stop_calls)
unfolding new_run_service lookup insert start advance
stop_reaches_handle_example = stop_reaches_handle 12 13 10 4711 plan launching_run (refl, refl)
