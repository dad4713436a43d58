-- ===== src/RunService/Finish.antt =====
-- `finishLocked`, `nextHistoryLocked`, `finish` and `persistHistory` of run_service.go.
use sync_bridge.Base.{
  ℕ, ◌+◌, ◌-◌, true, List, [], ◌∷◌, ◌++◌, Option, none, some, String, ℤ, lookup, insert, delete,
  ◌==◌, nat_keyed, int_keyed, if◌then◌else◌,
}
use sync_bridge.Job.{u64}
use sync_bridge.LogBuffer.{buffer_bytes}
use sync_bridge.RunService.State.{
  RunStatus, no_status, failed, RunSnapshot, RunResult, RunState, compiling, Ticket, Service,
  has_ended,
}
use sync_bridge.RunService.Events.{publish_locked}
use sync_bridge.RunService.Retention.{trim_log, trim_locked}

-- `if run.snapshot.Status == "" { run.snapshot.Status = RunFailed }`
abbrev pub status_or_failed : RunStatus → RunStatus
status_or_failed no_status = failed
status_or_failed status = status

abbrev pub text_or : Option String → String → String
text_or none old = old
text_or (some text) old = text

-- The run with the result written into its snapshot, its context cancelled.
unfoldable pub finished_run : ℕ → RunResult → RunState → RunState
finished_run now result run = record run {
  cancelled = true;
  snapshot = record snapshot {
    status = status_or_failed result.status;
    exit_code = result.exit_code;
    kill_escalated = result.kill_escalated;
    dropped_log_lines = result.dropped_log_lines;
    log_error = text_or result.log_error snapshot.log_error;
    control_error = text_or result.control_error snapshot.control_error;
    finished_at = now;
    error = text_or result.err snapshot.error;
  };
}
  where
    open run use {snapshot}

-- `if m[job] == id { delete(m, job) }`
unfoldable pub release : ℤ → ℕ → List (ℤ × ℕ) → List (ℤ × ℕ)
release job id m = elim (lookup job m) [
  | none ↦ m
  | some held ↦ if held == id then delete job m else m
]

-- Reading `s.runs[id].ctx` panics if there is no such run.
unfoldable pub promote_next : ℤ → Service → Option ℕ → Service
promote_next job s none = s
promote_next job s (some next) = record s {
  pending = delete job s.pending;
  active = insert job next s.active;
  workers = insert next compiling s.workers;
  panicked = elim (lookup next s.runs) [ none ↦ true | some _ ↦ s.panicked ];
}

unfoldable pub promote : ℤ → Service → Service
unfolding promote_next
promote job s = promote_next job s (lookup job s.pending)

-- The maps when a live run has ended.
unfoldable pub close_run : RunState → Service → Service
unfolding release
close_run done s = record s {
  runs = insert done.snapshot.id done s.runs;
  active = release done.snapshot.job_id done.snapshot.id s.active;
  pending = release done.snapshot.job_id done.snapshot.id s.pending;
}

unfoldable pub finish_live : ℕ → RunResult → RunState → Service → Service
unfolding finished_run close_run publish_locked trim_locked promote
finish_live now result run s =
    let done = finished_run now result run in
    promote run.snapshot.job_id (trim_locked now (publish_locked done.snapshot (close_run done s)))

-- `finishLocked` on the run with this ID: the new state, and the run unless nothing was done. The
-- run's log is trimmed with the others.
unfoldable pub finish_found : ℕ → RunResult → Service → Option RunState → Service × Option RunState
unfolding finish_live
finish_found now result s none = (s, none)
finish_found now result s (some run) = if has_ended run then (s, none) else (
  finish_live now result run s,
  some (trim_log (now - s.limits.max_age) (finished_run now result run)),
)

unfoldable pub finish_locked : ℕ → ℕ → RunResult → Service → Service × Option RunState
unfolding finish_found
finish_locked now id result s = finish_found now result s (lookup id s.runs)

-- `nextHistoryLocked`, and the record that now waits to be written.
unfoldable pub take_ticket : RunSnapshot → List ℕ → Service → Service
take_ticket snapshot logs s =
    let sequence = u64 (s.history_sequence + 1) in
    record s {
      history_sequence = sequence;
      tickets = record { sequence = sequence; snapshot = snapshot; logs = logs } ∷ s.tickets;
    }

unfoldable pub ticket_if_finished : Service × Option RunState → Service
unfolding take_ticket
ticket_if_finished (s, none) = s
ticket_if_finished (s, some run) = take_ticket run.snapshot (buffer_bytes run.log) s

-- The critical section of `finish`.
unfoldable pub finish : ℕ → ℕ → RunResult → Service → Service
unfolding finish_locked ticket_if_finished
finish now id result s = ticket_if_finished (finish_locked now id result s)

-- The ticket whose turn it is, and the others.
unfoldable pub take_turn : ℕ → List Ticket → Option Ticket × List Ticket
take_turn turn [] = (none, [])
take_turn turn (t ∷ ts) =
    let (found, rest) = take_turn turn ts in
    if t.sequence == turn then (some t, ts) else (found, t ∷ rest)

unfoldable pub note_history_error : Ticket → Option String → Service → Service
note_history_error t none s = s
note_history_error t (some text) s = elim (lookup t.snapshot.id s.runs) [
  | none ↦ s
  | some run ↦
      let noted = record run { snapshot = record run.snapshot { history_error = text } } in
      publish_locked noted.snapshot (record s { runs = insert t.snapshot.id noted s.runs })
]

-- One turn of `persistHistory`, where the write ends in an error or not; without the ticket whose
-- turn it is, every caller waits.
unfoldable pub persist_history : Option String → Service → Service
unfolding take_turn note_history_error publish_locked
persist_history outcome s = elim (take_turn s.history_next s.tickets).0 [
  | none ↦ s
  | some t ↦ note_history_error t outcome (record s {
    history_next = u64 (s.history_next + 1);
    tickets = (take_turn s.history_next s.tickets).1;
    history = s.history ++ (t ∷ []);
  })
]
