-- ===== src/HostExecutor/Control.antt =====
-- `control`, `Stop` and `reap` of host_executor.go. The loop is a state machine: an event is a case of
-- its `select` with what the host answers in that round; a channel or timer that is nil is `false` or
-- `none`.
use sync_bridge.RunService.State.{failed}
use sync_bridge.RunService.State.{RunStatus, killed, succeeded, timed_out}
use sync_bridge.Base.{
  ◌≡◌, none, some, [], ◌∷◌, true, false, ℕ, String, Bool, ℤ, if◌then◌else◌, List, ◌++◌, Option,
  int_ltb, ltb, not, pos, ◌||◌, ◌==◌, int_keyed,
}

pub data Reason : Type 0 where
  no_reason timeout_reason manual_reason : Reason

abbrev pub rank : Reason → ℕ
rank no_reason = 0
rank timeout_reason = 1
rank manual_reason = 2

-- The answer to a signal; `no_process` is ESRCH.
pub data SignalAnswer : Type 0 where
  delivered no_process : SignalAnswer
  signal_failed : String → SignalAnswer

pub data Signal : Type 0 where
  term_signal kill_signal : Signal

-- Whether the group has a live member.
pub data Probe : Type 0 where
  probed : Bool → Probe
  probe_failed : String → Probe

pub data ControlError : Type 0 where
  not_observed not_terminated not_killed not_inspected : String → ControlError

pub record Control : Type 0 where
  pub reason : Reason
  pub initiated : Bool
  pub kill_escalated : Bool
  pub errors : List ControlError
  pub timeout_armed : Bool
  pub grace_timer : Option ℤ
  pub poll_armed : Bool
  pub context_open : Bool
  pub leader_open : Bool
  pub leader_observed : Bool
  pub observation_done : Bool
  pub kill_sent : Bool
  pub probe_error_recorded : Bool
  pub signals : List Signal

abbrev pub start_control : ℤ → Control
start_control timeout = record {
  reason = no_reason;
  initiated = false;
  kill_escalated = false;
  errors = [];
  timeout_armed = int_ltb (pos 0) timeout;
  grace_timer = none;
  poll_armed = false;
  context_open = true;
  leader_open = true;
  leader_observed = false;
  observation_done = false;
  kill_sent = false;
  probe_error_recorded = false;
  signals = [];
}

-- An error of the inspection is recorded once.
abbrev pub note_inspection : Bool → String → List ControlError → List ControlError
note_inspection true e errors = errors
note_inspection false e errors = errors ++ (not_inspected e ∷ [])

unfoldable pub probe_group : Probe → Control → Control × Bool
probe_group (probed live) s = (s, live)
probe_group (probe_failed e) s = (
  record s {
    errors = note_inspection s.probe_error_recorded e s.errors;
    probe_error_recorded = true;
  },
  true,
)

abbrev pub raise_reason : Reason → Reason → Reason
raise_reason asked held = if ltb (rank held) (rank asked) then asked else held

abbrev pub not_negative : ℤ → ℤ
not_negative d = if int_ltb d (pos 0) then pos 0 else d

abbrev pub term_error : SignalAnswer → List ControlError → List ControlError
term_error (signal_failed e) errors = errors ++ (not_terminated e ∷ [])
term_error _ errors = errors

abbrev pub begun : Reason → ℤ → SignalAnswer → Control → Control
begun asked grace answer s = record s {
  reason = asked;
  initiated = true;
  errors = term_error answer s.errors;
  timeout_armed = false;
  grace_timer = some (not_negative grace);
  signals = s.signals ++ (term_signal ∷ []);
}

-- The first request; nothing begins where the group is gone.
abbrev pub initiate_first : Reason → ℤ → SignalAnswer → Control → Control × Bool
initiate_first asked grace no_process s =
    (record s { signals = s.signals ++ (term_signal ∷ []) }, false)
initiate_first asked grace delivered s = (begun asked grace delivered s, true)
initiate_first asked grace (signal_failed e) s = (begun asked grace (signal_failed e) s, true)

unfoldable pub initiate : Reason → ℤ → SignalAnswer → Control → Control × Bool
initiate asked grace answer s =
    if s.initiated
    then (record s { reason = raise_reason asked s.reason }, true)
    else initiate_first asked grace answer s

pub data Event : Type 0 where
  leader_lost : String → Event
  leader_exits : Probe → SignalAnswer → Event
  stop_asked : Reason → ℤ → SignalAnswer → Event
  context_ends : Bool → SignalAnswer → Event
  time_out : SignalAnswer → Event
  polls : Probe → Event
  grace_ends : Probe → SignalAnswer → Event

pub data Outcome : Type 0 where
  goes_on : Control → Outcome
  returns : Control → Outcome

abbrev pub poll_or_return : Control × Bool → Outcome
poll_or_return (s, true) = goes_on (record s { poll_armed = true })
poll_or_return (s, false) = returns s

-- Behind a leader that exited without KILL: the group is probed, and terminated if it lives on.
abbrev pub behind_leader : ℤ → SignalAnswer → Control × Bool → Outcome
behind_leader default_grace answer (s, false) = returns s
behind_leader default_grace answer (s, true) =
    if s.initiated
    then poll_or_return (s, true)
    else poll_or_return (initiate no_reason default_grace answer s)

abbrev pub live_or_return : (Control → Outcome) → Control × Bool → Outcome
live_or_return next (s, true) = next s
live_or_return next (s, false) = returns s

abbrev pub kill_answered : SignalAnswer → Control → Control
kill_answered delivered s = record s { kill_escalated = true }
kill_answered no_process s = s
kill_answered (signal_failed e) s = record s { errors = s.errors ++ (not_killed e ∷ []) }

abbrev pub end_if : Bool → Control → Outcome
end_if true s = returns s
end_if false s = goes_on s

abbrev pub kill_group : SignalAnswer → Control → Outcome
kill_group answer s = end_if s.observation_done (record (kill_answered answer s) {
  kill_sent = true;
  grace_timer = none;
  poll_armed = false;
  signals = s.signals ++ (kill_signal ∷ []);
})

abbrev pub lost : String → Control → Control
lost e s = record s {
  leader_open = false;
  observation_done = true;
  errors = s.errors ++ (not_observed e ∷ []);
}

abbrev pub observed : Control → Control
observed s = record s { leader_open = false; observation_done = true; leader_observed = true }

abbrev pub context_reason : Bool → Reason
context_reason deadline = if deadline then timeout_reason else manual_reason

-- One round of the loop.
unfoldable pub step : ℤ → Event → Control → Outcome
unfolding probe_group initiate
step default_grace (leader_lost e) s = end_if (not s.initiated || s.kill_sent) (lost e s)
step default_grace (leader_exits probe answer) s =
    if s.kill_sent
    then returns (observed s)
    else behind_leader default_grace answer (probe_group probe (observed s))
step default_grace (stop_asked asked grace answer) s = goes_on (initiate asked grace answer s).0
step default_grace (context_ends deadline answer) s =
    goes_on (record (initiate (context_reason deadline) default_grace answer s).0 {
      context_open = false;
    })
step default_grace (time_out answer) s =
    goes_on (record (initiate timeout_reason default_grace answer s).0 { timeout_armed = false })
step default_grace (polls probe) s = live_or_return goes_on (probe_group probe s)
step default_grace (grace_ends probe answer) s =
    if s.leader_observed
    then live_or_return (kill_group answer) (probe_group probe s)
    else kill_group answer s

abbrev pub armed : Option ℤ → Bool
armed none = false
armed (some d) = true

-- Whether a case of the `select` can be taken.
unfoldable pub enabled : Event → Control → Bool
enabled (leader_lost e) s = s.leader_open
enabled (leader_exits probe answer) s = s.leader_open
enabled (stop_asked asked grace answer) s = true
enabled (context_ends deadline answer) s = s.context_open
enabled (time_out answer) s = s.timeout_armed
enabled (polls probe) s = s.poll_armed
enabled (grace_ends probe answer) s = armed s.grace_timer

-- The loop from one state to another one, round by round.
pub data Reaches (default_grace : ℤ) : Control → Control → Type 0 where
  here : {s : Control} → Reaches default_grace s s
  later :
      {s t u : Control} (event : Event)
      → enabled event s ≡ true
      → step default_grace event s ≡ goes_on t
      → Reaches default_grace t u
      → Reaches default_grace s u

-- `reap`: the status of a run that ended, with the exit code if there is one.
unfoldable pub reap_status : Control → ℤ → RunStatus
reap_status c exit_code = elim c.reason [
  | manual_reason ↦ if c.initiated then killed else if exit_code == pos 0 then succeeded else failed
  | timeout_reason ↦
      if c.initiated then timed_out else if exit_code == pos 0 then succeeded else failed
  | no_reason ↦ if exit_code == pos 0 then succeeded else failed
]

-- The request that `Stop` sends.
abbrev pub stop_request : ℤ → SignalAnswer → Event
stop_request grace answer = stop_asked manual_reason (not_negative grace) answer
