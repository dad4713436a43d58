-- ===== src/HostExecutor/Stopped.antt =====
-- What a call of `Stop` makes of the status in host_executor.go.
use sync_bridge.RunService.State.{killed, succeeded, failed}
use sync_bridge.HostExecutor.Control.{
  here, later, delivered, no_process, signal_failed, no_reason, timeout_reason, manual_reason,
  Control, Outcome, Reason, initiate, probe_group, SignalAnswer, step, goes_on, raise_reason, Probe,
  end_if, live_or_return, kill_group, behind_leader, Event, Reaches, reap_status, returns,
  initiate_first, probed, poll_or_return, leader_lost, stop_request, probe_failed, not_negative,
  lost, leader_exits, observed, stop_asked, context_ends, context_reason, time_out, polls,
  grace_ends,
}
use sync_bridge.Base.{
  ◌≡◌, refl, true, false, Bool, ℤ, subst, if◌then◌else◌, sym, not, ap, ◌||◌, ◌∙◌, ◌==◌, pos,
  int_keyed,
}

-- The group was told to end, by a person.
pub record IsStopped (s : Control) : Type 0 where
  pub begun_so : s.initiated ≡ true
  pub by_hand : s.reason ≡ manual_reason

abbrev StoppedNext : Outcome → Type 0
StoppedNext (goes_on t) = IsStopped t
StoppedNext (returns t) = IsStopped t

raise_reason-manual : (asked : Reason) → raise_reason asked manual_reason ≡ manual_reason
raise_reason-manual no_reason = refl
raise_reason-manual timeout_reason = refl
raise_reason-manual manual_reason = refl

initiate-IsStopped :
    (asked : Reason) (grace : ℤ) (answer : SignalAnswer) (s : Control)
    → IsStopped s
    → IsStopped (initiate asked grace answer s).0
unfolding initiate
initiate-IsStopped asked grace answer s i =
    subst
      (λ b.
        IsStopped
          (if b
            then (record s { reason = raise_reason asked s.reason }, true)
            else initiate_first asked grace answer s).0)
      (sym i.begun_so)
      (record {
        begun_so = i.begun_so;
        by_hand = ap (raise_reason asked) i.by_hand ∙ raise_reason-manual asked;
      })

probe_group-IsStopped :
    (probe : Probe) (s : Control) → IsStopped s → IsStopped (probe_group probe s).0
unfolding probe_group
probe_group-IsStopped (probed live) s i = i
probe_group-IsStopped (probe_failed e) s i = record { begun_so = i.begun_so; by_hand = i.by_hand }

end_if-IsStopped : (b : Bool) (s : Control) → IsStopped s → StoppedNext (end_if b s)
end_if-IsStopped true s i = i
end_if-IsStopped false s i = i

live_or_return-IsStopped :
    (next : Control → Outcome) (p : Control × Bool)
    → IsStopped p.0
    → StoppedNext (next p.0)
    → StoppedNext (live_or_return next p)
live_or_return-IsStopped next (s, true) i h = h
live_or_return-IsStopped next (s, false) i h = i

kill_group-IsStopped :
    (answer : SignalAnswer) (s : Control) → IsStopped s → StoppedNext (kill_group answer s)
kill_group-IsStopped delivered s i =
    end_if-IsStopped s.observation_done _ (record { begun_so = i.begun_so; by_hand = i.by_hand })
kill_group-IsStopped no_process s i =
    end_if-IsStopped s.observation_done _ (record { begun_so = i.begun_so; by_hand = i.by_hand })
kill_group-IsStopped (signal_failed e) s i =
    end_if-IsStopped s.observation_done _ (record { begun_so = i.begun_so; by_hand = i.by_hand })

behind_leader-IsStopped :
    (d : ℤ) (answer : SignalAnswer) (p : Control × Bool)
    → IsStopped p.0
    → StoppedNext (behind_leader d answer p)
behind_leader-IsStopped d answer (s, false) i = i
behind_leader-IsStopped d answer (s, true) i =
    subst
      (λ b.
        StoppedNext
          (if b then poll_or_return (s, true) else poll_or_return (initiate no_reason d answer s)))
      (sym i.begun_so) (record { begun_so = i.begun_so; by_hand = i.by_hand })

step-IsStopped : (d : ℤ) (event : Event) (s : Control) → IsStopped s → StoppedNext (step d event s)
unfolding step
step-IsStopped d (leader_lost e) s i =
    end_if-IsStopped (not s.initiated || s.kill_sent) (lost e s)
      (record { begun_so = i.begun_so; by_hand = i.by_hand })
step-IsStopped d (leader_exits probe answer) s i = at s.kill_sent
  where
    seen : IsStopped (observed s)
    seen = record { begun_so = i.begun_so; by_hand = i.by_hand }

    at :
        (b : Bool)
        → StoppedNext (
            if b
            then returns (observed s)
            else behind_leader d answer (probe_group probe (observed s)))
    at true = seen
    at false =
        behind_leader-IsStopped d answer (probe_group probe (observed s))
          (probe_group-IsStopped probe (observed s) seen)
step-IsStopped d (stop_asked asked grace answer) s i = initiate-IsStopped asked grace answer s i
step-IsStopped d (context_ends deadline answer) s i =
    let j = initiate-IsStopped (context_reason deadline) d answer s i in
    record { begun_so = j.begun_so; by_hand = j.by_hand }
step-IsStopped d (time_out answer) s i =
    let j = initiate-IsStopped timeout_reason d answer s i in
    record { begun_so = j.begun_so; by_hand = j.by_hand }
step-IsStopped d (polls probe) s i =
    live_or_return-IsStopped goes_on (probe_group probe s) (probe_group-IsStopped probe s i)
      (probe_group-IsStopped probe s i)
step-IsStopped d (grace_ends probe answer) s i = at s.leader_observed
  where
    at :
        (b : Bool)
        → StoppedNext (
            if b
            then live_or_return (kill_group answer) (probe_group probe s)
            else kill_group answer s)
    at true =
        live_or_return-IsStopped (kill_group answer) (probe_group probe s)
          (probe_group-IsStopped probe s i)
          (kill_group-IsStopped answer (probe_group probe s).0 (probe_group-IsStopped probe s i))
    at false = kill_group-IsStopped answer s i

Reaches-IsStopped : (d : ℤ) (s t : Control) → Reaches d s t → IsStopped s → IsStopped t
Reaches-IsStopped d s t here i = i
Reaches-IsStopped d s t (later {t = next} event on eq more) i =
    Reaches-IsStopped d next t more (subst StoppedNext eq (step-IsStopped d event s i))

-- A stop that finds the group, or one that is being ended already, counts from then on.
initiate-manual :
    (grace : ℤ) (answer : SignalAnswer) (s : Control)
    → (initiate manual_reason grace answer s).0.initiated ≡ true
    → IsStopped (initiate manual_reason grace answer s).0
unfolding initiate
initiate-manual grace answer s h = at s.initiated refl answer h
  where
    next : Bool → SignalAnswer → Control × Bool
    next b a =
        if b
        then (record s { reason = raise_reason manual_reason s.reason }, true)
        else initiate_first manual_reason grace a s

    raised : (r : Reason) → raise_reason manual_reason r ≡ manual_reason
    raised no_reason = refl
    raised timeout_reason = refl
    raised manual_reason = refl

    at :
        (b : Bool)
        → s.initiated ≡ b
        → (a : SignalAnswer) → (next b a).0.initiated ≡ true
        → IsStopped (next b a).0
    at true q a h = record { begun_so = q; by_hand = raised s.reason }
    at false q delivered h = record { begun_so = refl; by_hand = refl }
    at false q no_process h = absurd (cc (h, q))
    at false q (signal_failed e) h = record { begun_so = refl; by_hand = refl }

goes_on-inj : {s t : Control} → goes_on s ≡ goes_on t → s ≡ t
goes_on-inj h = cc h

reap_status-killed : (v : Control) (exit_code : ℤ) → IsStopped v → reap_status v exit_code ≡ killed
unfolding reap_status
reap_status-killed v exit_code i =
    ap (λ r. reap_status (record v { reason = r }) exit_code) i.by_hand
    ∙ ap (λ b. if b then killed else if exit_code == pos 0 then succeeded else failed) i.begun_so

-- Behind a call of `Stop` after which the group is being ended, whatever else happens until the loop returns, and
-- whatever the exit code: the status of the run is killed.
pub stop-killed :
    (d : ℤ) (grace : ℤ) (answer : SignalAnswer) (s t u v : Control) (event : Event) (exit_code : ℤ)
    → step d (stop_request grace answer) s ≡ goes_on t
    → t.initiated ≡ true
    → Reaches d t u
    → step d event u ≡ returns v
    → reap_status v exit_code ≡ killed
unfolding step
stop-killed d grace answer s t u v event exit_code asked ending run ended =
    let same : (initiate manual_reason (not_negative grace) answer s).0 ≡ t = goes_on-inj asked in
    let i = subst IsStopped same (
      initiate-manual (not_negative grace) answer s
        (ap (λ (x : Control). x.initiated) same ∙ ending)) in
    let j = subst StoppedNext ended (step-IsStopped d event u (Reaches-IsStopped d t u run i)) in
    reap_status-killed v exit_code j
