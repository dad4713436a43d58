-- ===== src/RunService/Worker.antt =====
-- `execute` of run_service.go, cut where it takes the service's mutex or waits for the compiler, the
-- installer, the executor or the process. These four answer with the constructors of `Answer`.
use sync_bridge.Base.{
  List, ℕ, negsuc, Bool, true, false, ◌∷◌, Option, none, some, String, lookup, insert, delete,
  nat_keyed, if◌then◌else◌,
}
use sync_bridge.RunService.State.{
  running, start_failed, RunResult, RunState, PlanIdentity, Phase, compiling, installing, installed,
  launching, executing, waiting, finishing, Service, is_queued,
}
use sync_bridge.LogBuffer.{append_at}
use sync_bridge.RunService.Events.{publish_locked, publish_log}
use sync_bridge.RunService.Finish.{finish}

pub data Answer : Type 0 where
  compiled : PlanIdentity → Option String → Answer
  wrapper_installed : Option String → Answer
  proceeds : Answer
  launched : ℕ → Answer
  launch_failed : String → Answer
  exited : RunResult → Answer

unfoldable pub queued_run : Option RunState → Bool
queued_run none = false
queued_run (some run) = is_queued run.snapshot.status

-- `queued`
unfoldable pub is_queued_in : ℕ → Service → Bool
unfolding queued_run
is_queued_in id s = queued_run (lookup id s.runs)

abbrev pub start_failure : String → RunResult
start_failure text = record {
  status = start_failed;
  exit_code = negsuc 0;
  kill_escalated = false;
  dropped_log_lines = 0;
  err = some text;
  log_error = none;
  control_error = none;
}

unfoldable pub goes_to : ℕ → Phase → Service → Service
goes_to id phase s = record s { workers = insert id phase s.workers }

unfoldable pub returns : ℕ → Service → Service
returns id s = record s { workers = delete id s.workers }

-- To the phase if the run is still queued; else the goroutine returns.
unfoldable pub while_queued : ℕ → Phase → Service → Service
unfolding is_queued_in goes_to returns
while_queued id phase s = if is_queued_in id s then goes_to id phase s else returns id s

abbrev pub after_compile : PlanIdentity → Option String → Phase
after_compile plan none = installing plan
after_compile plan (some text) = installed (some text) plan

abbrev pub after_install : PlanIdentity → Option String → Phase
after_install plan none = launching plan
after_install plan (some text) = finishing (start_failure text)

-- `run.starting = true`, unless the run is gone or no longer queued.
unfoldable pub begin_launch : ℕ → PlanIdentity → Service → Option RunState → Service
unfolding goes_to returns
begin_launch id plan s none = returns id s
begin_launch id plan s (some run) =
    if is_queued run.snapshot.status
    then goes_to id (executing plan)
        (record s { runs = insert id (record run { starting = true }) s.runs })
    else returns id s

unfoldable pub running_run : ℕ → PlanIdentity → ℕ → RunState → RunState
running_run now plan handle run = record run {
  handle = some handle;
  starting = false;
  snapshot = record snapshot {
    status = running;
    started_at = now;
    effective_uid = plan.uid;
    effective_gid = plan.gid;
  };
}
  where
    open run use {snapshot}

-- The section after `executor.Start`, and the stop that was asked for meanwhile.
unfoldable pub mark_running : ℕ → ℕ → PlanIdentity → ℕ → Service → Option RunState → Service
unfolding running_run publish_locked
mark_running now id plan handle s none = s
mark_running now id plan handle s (some run) =
    if is_queued run.snapshot.status
    then publish_locked (running_run now plan handle run).snapshot (record s {
      runs = insert id (running_run now plan handle run) s.runs;
      stop_calls = if run.stop_requested then handle ∷ s.stop_calls else s.stop_calls;
    })
    else s

-- What the goroutine of run `id` does in this phase when the answer arrives. An answer that does not
-- belong to the phase does not come.
unfoldable pub advance : ℕ → ℕ → Phase → Answer → Service → Service
unfolding while_queued begin_launch mark_running finish
advance now id compiling (compiled plan err) s = while_queued id (after_compile plan err) s
advance now id (installing plan) (wrapper_installed err) s = goes_to id (installed err plan) s
advance now id (installed err plan) proceeds s = while_queued id (after_install plan err) s
advance now id (launching plan) proceeds s = begin_launch id plan s (lookup id s.runs)
advance now id (executing plan) (launched handle) s =
    goes_to id (waiting handle) (mark_running now id plan handle s (lookup id s.runs))
advance now id (executing plan) (launch_failed text) s =
    goes_to id (finishing (start_failure text)) s
advance now id (waiting handle) (exited result) s = goes_to id (finishing result) s
advance now id (finishing result) proceeds s = returns id (finish now id result s)
advance now id _ _ s = s

-- The consumer of the log sink: the line goes into the run's buffer, then to the subscribers.
unfoldable pub logged_run : ℕ → List ℕ → RunState → RunState
logged_run now line run = record run {
  log = elim (append_at now line run.log) [ none ↦ run.log | some log ↦ log ];
}

unfoldable pub log_found : ℕ → ℕ → List ℕ → Service → Option RunState → Service
unfolding logged_run
log_found now id line s none = s
log_found now id line s (some run) = record s { runs = insert id (logged_run now line run) s.runs }

unfoldable pub consume_log : ℕ → ℕ → List ℕ → Service → Service
unfolding log_found publish_log
consume_log now id line s = publish_log id line (log_found now id line s (lookup id s.runs))
