-- ===== src/HostExecutor/Ending.antt =====
-- How the control loop of host_executor.go ends.
use sync_bridge.HostExecutor.Sound.{Reaches-IsSound}
use sync_bridge.HostExecutor.Control.{
  SignalAnswer, probe_group, step, enabled, Control, kill_group, Probe, returns, live_or_return,
  grace_ends, Reaches, kill_answered, probed, start_control, probe_failed, kill_signal,
  note_inspection, leader_exits, observed, end_if, behind_leader,
}
use sync_bridge.Base.{
  ◌≡◌, refl, none, [], ◌∷◌, true, false, ℤ, Bool, ◌++◌, if◌then◌else◌, ◌⊎◌, ap, Bool-cases, inl,
  arith, inr,
}

kill_group-returns :
    (answer : SignalAnswer) (s : Control)
    → s.observation_done ≡ true
    → (t : Control) × (kill_group answer s ≡ returns t)
kill_group-returns answer s seen = (
  record (kill_answered answer s) {
    kill_sent = true;
    grace_timer = none;
    poll_armed = false;
    signals = s.signals ++ (kill_signal ∷ []);
  },
  ap
      (λ b. end_if b (record (kill_answered answer s) {
        kill_sent = true;
        grace_timer = none;
        poll_armed = false;
        signals = s.signals ++ (kill_signal ∷ []);
      }))
      seen,
)

probed-returns :
    (probe : Probe) (answer : SignalAnswer) (s : Control)
    → s.observation_done ≡ true
    → (t : Control) × (live_or_return (kill_group answer) (probe_group probe s) ≡ returns t)
unfolding probe_group
probed-returns (probed true) answer s seen = kill_group-returns answer s seen
probed-returns (probed false) answer s seen = (s, refl)
probed-returns (probe_failed e) answer s seen =
    kill_group-returns answer
      (record s {
        errors = note_inspection s.probe_error_recorded e s.errors;
        probe_error_recorded = true;
      })
      seen

grace_ends-returns :
    (default_grace : ℤ) (probe : Probe) (answer : SignalAnswer) (s : Control)
    → s.observation_done ≡ true
    → (t : Control) × (step default_grace (grace_ends probe answer) s ≡ returns t)
unfolding step
grace_ends-returns d probe answer s seen = at s.leader_observed
  where
    at :
        (b : Bool)
        → (t : Control) × ((if b
              then live_or_return (kill_group answer) (probe_group probe s)
              else kill_group answer s)
            ≡ returns t)
    at true = probed-returns probe answer s seen
    at false = kill_group-returns answer s seen

-- In every state that the loop reaches from its start: the leader's exit was seen, and then the grace timer runs,
-- and its end ends the loop whatever the host answers; or the exit was not seen, and then its
-- channel is open, and if KILL was sent, the exit ends the loop.
pub control-ends :
    (default_grace timeout : ℤ) (s : Control) (probe : Probe) (answer : SignalAnswer)
    → Reaches default_grace (start_control timeout) s
    → ((s.observation_done ≡ true)
        × (enabled (grace_ends probe answer) s ≡ true)
        × ((t : Control) × (step default_grace (grace_ends probe answer) s ≡ returns t)))
      ⊎ ((s.observation_done ≡ false)
          × (enabled (leader_exits probe answer) s ≡ true)
          × (s.kill_sent ≡ false
              ⊎ step default_grace (leader_exits probe answer) s ≡ returns (observed s)))
unfolding enabled step
control-ends d timeout s probe answer r =
    let i = Reaches-IsSound d timeout s r in
    elim (Bool-cases s.observation_done) [
      | inl seen ↦
          inl (seen, ground (arith, seen, i.ends_seen), grace_ends-returns d probe answer s seen)
      | inr unseen ↦ inr (
        unseen,
        ground (arith, unseen, i.leader_once),
        elim (Bool-cases s.kill_sent) [
          | inl sent ↦ inr (
              ap
                (λ b.
                  if b
                  then returns (observed s)
                  else behind_leader d answer (probe_group probe (observed s)))
                sent)
          | inr q ↦ inl q
        ],
      )
    ]
