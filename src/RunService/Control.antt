-- ===== src/RunService/Control.antt =====
-- `Stop`, `Get`, `List` and `Logs` of run_service.go.
use sync_bridge.Base.{
  ℕ, ℤ, pos, negsuc, Bool, true, false, not, ◌&&◌, ◌||◌, List, [], ◌∷◌, Option, none, some, lookup,
  insert, take, length, ltb, ◌==◌, nat_keyed, int_keyed, if◌then◌else◌,
}
use mathlib.Core.Option
use sync_bridge.LogBuffer.{buffer_bytes}
use sync_bridge.RunService.State.{
  RunStatus, no_status, queued, running, succeeded, failed, killed, timed_out, start_failed,
  skipped_overlap, RunSnapshot, RunResult, RunState, Service, is_queued,
}
use sync_bridge.RunService.Finish.{finish_locked, ticket_if_finished}
use sync_bridge.RunService.Retention.{prune}

pub data StopOutcome : Type 0 where
  run_not_found stopped run_not_active : StopOutcome
  stop_forwarded : ℕ → StopOutcome

abbrev pub killed_result : RunResult
killed_result = record {
  status = killed;
  exit_code = negsuc 0;
  kill_escalated = false;
  dropped_log_lines = 0;
  err = none;
  log_error = none;
  control_error = none;
}

-- A run that has left the queue: its handle is told, if it is running.
unfoldable pub stop_started : Service → RunStatus → Option ℕ → Service × StopOutcome
stop_started s running (some handle) =
    (record s { stop_calls = handle ∷ s.stop_calls }, stop_forwarded handle)
stop_started s _ _ = (s, run_not_active)

-- The executor is starting the run: the stop is noted, and the run's context cancelled.
unfoldable pub noted_stop : RunState → RunState
noted_stop run = record run { stop_requested = true; cancelled = true }

unfoldable pub stop_found : ℕ → ℕ → Service → Option RunState → Service × StopOutcome
unfolding finish_locked ticket_if_finished stop_started
stop_found now id s none = (s, run_not_found)
stop_found now id s (some run) =
    if is_queued run.snapshot.status
    then (if run.starting
        then (record s { runs = insert id (noted_stop run) s.runs }, stopped)
        else (ticket_if_finished (finish_locked now id killed_result s), stopped))
    else stop_started s run.snapshot.status run.handle

-- `Stop`
unfoldable pub stop : ℕ → ℕ → Service → Service × StopOutcome
unfolding stop_found
stop now id s = stop_found now id s (lookup id s.runs)

-- `Get`: prunes first.
unfoldable pub get : ℕ → ℕ → Service → Service × Option RunSnapshot
unfolding prune
get now id s = let s' = prune now s in (s', Option.map (λ run. run.snapshot) (lookup id s'.runs))

-- `Logs`
unfoldable pub logs : ℕ → ℕ → Service → Service × Option (List ℕ)
unfolding prune
logs now id s =
    let s' = prune now s in (s', Option.map (λ run. buffer_bytes run.log) (lookup id s'.runs))

-- `RunFilter`; a job ID of 0, no status and a limit of 0 do not filter.
pub record RunFilter : Type 0 where
  pub job_id : ℤ
  pub status : RunStatus
  pub limit : ℕ

abbrev status_number : RunStatus → ℕ
status_number no_status = 0
status_number queued = 1
status_number running = 2
status_number succeeded = 3
status_number failed = 4
status_number killed = 5
status_number timed_out = 6
status_number start_failed = 7
status_number skipped_overlap = 8

abbrev pub status_beq : RunStatus → RunStatus → Bool
status_beq a b = status_number a == status_number b

unfoldable pub filter_excludes : RunFilter → RunSnapshot → Bool
filter_excludes f run =
    (not (f.job_id == pos 0) && not (f.job_id == run.job_id))
    || (not (status_beq f.status no_status) && not (status_beq f.status run.status))

-- The loop of `List`.
unfoldable pub filtered : RunFilter → List (ℕ × RunState) → List RunSnapshot
unfolding filter_excludes
filtered f [] = []
filtered f ((id, run) ∷ runs) =
    let rest = filtered f runs in
    if filter_excludes f run.snapshot then rest else run.snapshot ∷ rest

-- `sort.Slice`, the latest request first, by insertion.
unfoldable pub insert_by_request : RunSnapshot → List RunSnapshot → List RunSnapshot
insert_by_request t [] = t ∷ []
insert_by_request t (u ∷ us) =
    if ltb t.requested_at u.requested_at then u ∷ insert_by_request t us else t ∷ u ∷ us

unfoldable pub sort_by_request : List RunSnapshot → List RunSnapshot
unfolding insert_by_request
sort_by_request [] = []
sort_by_request (t ∷ ts) = insert_by_request t (sort_by_request ts)

-- `List`
unfoldable pub list_runs : ℕ → RunFilter → Service → Service × List RunSnapshot
unfolding prune filtered sort_by_request
list_runs now f s =
    let s' = prune now s in
    let result = sort_by_request (filtered f s'.runs) in
    (s', if not (f.limit == 0) && ltb f.limit (length result) then take f.limit result else result)
