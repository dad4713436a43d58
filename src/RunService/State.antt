-- ===== src/RunService/State.antt =====
-- The state of run_service.go. A run ID is the number that its 16 random bytes write in hex. A map is
-- an association list. Each critical section under the service's mutex is one function on this
-- state. What goroutines do between the sections is kept beside the maps: `workers` says where each
-- `execute` stands, `tickets` which history writes wait for their turn, `history` what was written,
-- `stop_calls` which handles were told to stop, `panicked` whether a nil pointer was followed.
use sync_bridge.Base.{
  ℕ, ◌*◌, ℤ, String, Bool, true, false, List, [], Option, ◌==◌, nat_keyed, if◌then◌else◌,
}
use sync_bridge.Job.{Job}
use sync_bridge.LogBuffer.{LogBuffer, LogLimits}

pub data RunStatus : Type 0 where
  no_status queued running succeeded failed killed : RunStatus
  timed_out start_failed skipped_overlap : RunStatus

pub data RunOrigin : Type 0 where
  no_origin manual_origin cron_origin watch_origin system_origin : RunOrigin
  other_origin : String → RunOrigin

pub record StartRunInput : Type 0 where
  pub job_id : ℤ
  pub revision : ℕ
  pub origin : RunOrigin
  pub dry_run : Bool

pub record RunSnapshot : Type 0 where
  pub id : ℕ
  pub job_id : ℤ
  pub revision : ℕ
  pub status : RunStatus
  pub origin : RunOrigin
  pub dry_run : Bool
  pub requested_at : ℕ
  pub started_at : ℕ
  pub finished_at : ℕ
  pub effective_uid : ℤ
  pub effective_gid : ℤ
  pub exit_code : ℤ
  pub kill_escalated : Bool
  pub dropped_log_lines : ℕ
  pub log_error : String
  pub control_error : String
  pub history_error : String
  pub error : String

-- What an execution reports; an error is its text.
pub record RunResult : Type 0 where
  pub status : RunStatus
  pub exit_code : ℤ
  pub kill_escalated : Bool
  pub dropped_log_lines : ℕ
  pub err : Option String
  pub log_error : Option String
  pub control_error : Option String

-- A handle is known by the process ID that it stands for.
pub record RunState : Type 0 where
  pub snapshot : RunSnapshot
  pub job : Job
  pub log : LogBuffer
  pub handle : Option ℕ
  pub cancelled : Bool
  pub starting : Bool
  pub stop_requested : Bool

pub data RunEventKind : Type 0 where
  state_event log_event : RunEventKind

pub record RunEvent : Type 0 where
  pub id : ℕ
  pub kind : RunEventKind
  pub run : RunSnapshot
  pub log : List ℕ

-- A subscriber's buffered channel.
pub record Channel : Type 0 where
  pub capacity : ℕ
  pub buffer : List RunEvent

-- What `execute` reads of the compiled plan: its identity.
pub record PlanIdentity : Type 0 where
  pub uid : ℤ
  pub gid : ℤ

-- Where an `execute` stands between two critical sections.
pub data Phase : Type 0 where
  compiling : Phase
  installing : PlanIdentity → Phase
  installed : Option String → PlanIdentity → Phase
  launching : PlanIdentity → Phase
  executing : PlanIdentity → Phase
  waiting : ℕ → Phase
  finishing : RunResult → Phase

-- A history record with its place in the order, not yet written.
pub record Ticket : Type 0 where
  pub sequence : ℕ
  pub snapshot : RunSnapshot
  pub logs : List ℕ

pub record Service : Type 0 where
  pub limits : LogLimits
  pub runs : List (ℕ × RunState)
  pub active : List (ℤ × ℕ)
  pub pending : List (ℤ × ℕ)
  pub event_id : ℕ
  pub events : List RunEvent
  pub subscribers : List (ℕ × Channel)
  pub next_sub_id : ℕ
  pub history_sequence : ℕ
  pub history_next : ℕ
  pub workers : List (ℕ × Phase)
  pub tickets : List Ticket
  pub history : List Ticket
  pub stop_calls : List ℕ
  pub panicked : Bool

-- `isTerminalRunStatus`
abbrev pub is_terminal_run_status : RunStatus → Bool
is_terminal_run_status succeeded = true
is_terminal_run_status failed = true
is_terminal_run_status killed = true
is_terminal_run_status timed_out = true
is_terminal_run_status start_failed = true
is_terminal_run_status skipped_overlap = true
is_terminal_run_status _ = false

abbrev pub is_queued : RunStatus → Bool
is_queued queued = true
is_queued _ = false

-- Whether a run has ended.
abbrev pub has_ended : RunState → Bool
has_ended r = is_terminal_run_status r.snapshot.status

-- The limits that `NewRunService` puts in the place of those that are not set.
unfoldable pub run_limits : LogLimits → LogLimits
run_limits limits = record limits {
  max_runs = if limits.max_runs == 0 then 100 else limits.max_runs;
  max_age = if limits.max_age == 0 then 24 * 60 * 60 * 1000000000 else limits.max_age;
}

-- `NewRunService`
unfoldable pub new_run_service : LogLimits → Service
unfolding run_limits
new_run_service limits = record {
  limits = run_limits limits;
  runs = [];
  active = [];
  pending = [];
  event_id = 0;
  events = [];
  subscribers = [];
  next_sub_id = 0;
  history_sequence = 0;
  history_next = 1;
  workers = [];
  tickets = [];
  history = [];
  stop_calls = [];
  panicked = false;
}
