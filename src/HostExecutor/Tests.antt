-- ===== src/HostExecutor/Tests.antt =====
-- A group that outlives its leader behind a stop, and is killed at the end of the grace.
use sync_bridge.HostExecutor.Chunks.{GivesUp, stream_lines-normalize}
use sync_bridge.HostExecutor.FirstLine.{pieces, normalize}
use sync_bridge.HostExecutor.Splitter.{stream_lines, scan, drain, split, line_in, drop_bytes}
use sync_bridge.HostExecutor.Ending.{control-ends}
use sync_bridge.HostExecutor.Stopped.{stop-killed}
use sync_bridge.RunService.State.{killed}
use sync_bridge.HostExecutor.Sound.{IsSound, Reaches-IsSound}
use sync_bridge.HostExecutor.Control.{
  here, later, delivered, probed, manual_reason, Control, step, enabled, start_control, term_signal,
  probe_group, grace_ends, kill_signal, initiate, returns, Reaches, reap_status, leader_exits,
  stop_request, observed,
}
use sync_bridge.Base.{◌≡◌, refl, none, some, [], ◌∷◌, true, false, pos, ◌⊎◌, List, ℕ}

abbrev started : Control
started = start_control (pos 60)

-- Behind the stop.
abbrev stopping : Control
stopping = record started {
  reason = manual_reason;
  initiated = true;
  timeout_armed = false;
  grace_timer = some (pos 5);
  signals = term_signal ∷ [];
}

-- Behind the leader's exit.
abbrev orphaned : Control
orphaned = record stopping {
  leader_open = false;
  observation_done = true;
  leader_observed = true;
  poll_armed = true;
}

abbrev ended : Control
ended = record orphaned {
  kill_sent = true;
  kill_escalated = true;
  grace_timer = none;
  poll_armed = false;
  signals = term_signal ∷ kill_signal ∷ [];
}

leaves : Reaches (pos 9) stopping orphaned
unfolding step probe_group initiate enabled
leaves = later (leader_exits (probed true) delivered) refl refl here

arrives : Reaches (pos 9) started orphaned
unfolding step probe_group initiate enabled
arrives = later (stop_request (pos 5) delivered) refl refl leaves

stop-killed_example : reap_status ended (pos 0) ≡ killed
unfolding step probe_group initiate
stop-killed_example =
    stop-killed (pos 9) (pos 5) delivered started stopping orphaned ended
      (grace_ends (probed true) delivered) (pos 0) refl refl leaves refl

control-ends_example :
    ((orphaned.observation_done ≡ true)
      × (enabled (grace_ends (probed true) delivered) orphaned ≡ true)
      × ((t : Control) × (step (pos 9) (grace_ends (probed true) delivered) orphaned ≡ returns t)))
    ⊎ ((orphaned.observation_done ≡ false)
        × (enabled (leader_exits (probed true) delivered) orphaned ≡ true)
        × (orphaned.kill_sent ≡ false
            ⊎ step (pos 9) (leader_exits (probed true) delivered) orphaned
              ≡ returns (observed orphaned)))
control-ends_example = control-ends (pos 9) (pos 60) orphaned (probed true) delivered arrives

Reaches-IsSound_example : IsSound orphaned
Reaches-IsSound_example = Reaches-IsSound (pos 9) (pos 60) orphaned arrives

-- "a", a return, a line feed and "b", cut between the two ends of the line.
abbrev cut_stream : List (List ℕ)
cut_stream = (97 ∷ 13 ∷ []) ∷ (10 ∷ 98 ∷ []) ∷ []

cut_lines : stream_lines (1 ∷ []) cut_stream ≡ (97 ∷ []) ∷ (98 ∷ []) ∷ []
unfolding stream_lines scan drain split line_in drop_bytes
cut_lines = refl

stream_lines-normalize_example :
    (stream_lines (1 ∷ []) cut_stream ≡ pieces (normalize false (97 ∷ 13 ∷ 10 ∷ 98 ∷ [])))
    ⊎ GivesUp
        (1 ∷ [])
        (pieces (normalize false (97 ∷ 13 ∷ 10 ∷ 98 ∷ [])))
        (stream_lines (1 ∷ []) cut_stream)
stream_lines-normalize_example = stream_lines-normalize (1 ∷ []) cut_stream
