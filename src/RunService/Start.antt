-- ===== src/RunService/Start.antt =====
-- `Start` of run_service.go: a run is reserved, queued behind the active one, or skipped.
use sync_bridge.Base.{
  ℕ, pos, negsuc, true, false, not, ◌&&◌, [], Option, none, some, String, lookup, insert, ◌==◌,
  nat_keyed, int_keyed, string_keyed, if◌then◌else◌,
}
use sync_bridge.Job.{Job}
use sync_bridge.LogBuffer.{LogLimits, new_log_buffer}
use sync_bridge.RunService.State.{
  queued, skipped_overlap, RunOrigin, no_origin, manual_origin, StartRunInput, RunSnapshot,
  RunResult, RunState, compiling, Service,
}
use sync_bridge.RunService.Events.{publish_locked}
use sync_bridge.RunService.Finish.{finish_locked, take_ticket, ticket_if_finished}

pub data StartError : Type 0 where
  job_not_found revision_conflict no_run_id : StartError

-- `skipped` is the snapshot with `ErrOverlap`.
pub data StartOutcome : Type 0 where
  refused : StartError → StartOutcome
  skipped : RunSnapshot → StartOutcome
  reserved : RunSnapshot → StartOutcome

-- The text of `ErrOverlap`.
abbrev pub overlap_text : String
overlap_text = "job already has an active run"

abbrev pub origin_or_manual : RunOrigin → RunOrigin
origin_or_manual no_origin = manual_origin
origin_or_manual origin = origin

unfoldable pub new_run : ℕ → ℕ → Job → StartRunInput → LogLimits → RunState
unfolding new_log_buffer
new_run now id job input limits = record {
  snapshot = record {
    id = id;
    job_id = job.id;
    revision = job.revision;
    status = queued;
    origin = origin_or_manual input.origin;
    dry_run = input.dry_run;
    requested_at = now;
    started_at = 0;
    finished_at = 0;
    effective_uid = pos 0;
    effective_gid = pos 0;
    exit_code = negsuc 0;
    kill_escalated = false;
    dropped_log_lines = 0;
    log_error = "";
    control_error = "";
    history_error = "";
    error = "";
  };
  job = job;
  log = new_log_buffer limits;
  handle = none;
  cancelled = false;
  starting = false;
  stop_requested = false;
}

-- The result of a run that is replaced while it waits.
abbrev pub replaced_result : RunResult
replaced_result = record {
  status = skipped_overlap;
  exit_code = negsuc 0;
  kill_escalated = false;
  dropped_log_lines = 0;
  err = some overlap_text;
  log_error = none;
  control_error = none;
}

-- The rejected run, which is still an observable terminal run.
unfoldable pub skipped_run : ℕ → RunState → RunState
skipped_run now run = record run {
  cancelled = true;
  snapshot = record snapshot { status = skipped_overlap; finished_at = now; error = overlap_text };
}
  where
    open run use {snapshot}

unfoldable pub skip_run : ℕ → RunState → Service → Service
unfolding skipped_run publish_locked take_ticket
skip_run now run s =
    let run' = skipped_run now run in
    take_ticket run'.snapshot []
      (publish_locked run'.snapshot (record s { runs = insert run.snapshot.id run' s.runs }))

unfoldable pub replace_previous : ℕ → Service → Option ℕ → Service
unfolding finish_locked ticket_if_finished
replace_previous now s none = s
replace_previous now s (some previous) =
    ticket_if_finished (finish_locked now previous replaced_result s)

unfoldable pub enqueue_run : RunState → Service → Service
unfolding publish_locked
enqueue_run run s = publish_locked run.snapshot (record s {
  runs = insert run.snapshot.id run s.runs;
  pending = insert run.snapshot.job_id run.snapshot.id s.pending;
})

unfoldable pub activate_run : RunState → Service → Service
unfolding publish_locked
activate_run run s = publish_locked run.snapshot (record s {
  runs = insert run.snapshot.id run s.runs;
  active = insert run.snapshot.job_id run.snapshot.id s.active;
  workers = insert run.snapshot.id compiling s.workers;
})

-- The critical section, on what the job's entry in `active` reads.
unfoldable pub reserve_by : ℕ → RunState → Service → Option ℕ → Service × StartOutcome
unfolding skip_run replace_previous enqueue_run activate_run
reserve_by now run s none = (activate_run run s, reserved run.snapshot)
reserve_by now run s (some held) =
    if run.job.execution.overlap == "queue-latest"
    then (
      enqueue_run run (replace_previous now s (lookup run.job.id s.pending)),
      reserved run.snapshot,
    )
    else (skip_run now run s, skipped (skipped_run now run).snapshot)

unfoldable pub reserve : ℕ → RunState → Service → Service × StartOutcome
unfolding reserve_by
reserve now run s = reserve_by now run s (lookup run.job.id s.active)

unfoldable pub start_with_id : ℕ → StartRunInput → Job → Service → Option ℕ → Service × StartOutcome
unfolding new_run reserve
start_with_id now input job s none = (s, refused no_run_id)
start_with_id now input job s (some id) = reserve now (new_run now id job input s.limits) s

-- `Start`, given what the repository finds under the job ID and the drawn run ID, if drawing worked.
unfoldable pub start : ℕ → StartRunInput → Option Job → Option ℕ → Service → Service × StartOutcome
unfolding start_with_id
start now input none fresh s = (s, refused job_not_found)
start now input (some job) fresh s =
    if not (input.revision == 0) && not (input.revision == job.revision)
    then (s, refused revision_conflict)
    else start_with_id now input job s fresh
