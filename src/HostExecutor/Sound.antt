-- ===== src/HostExecutor/Sound.antt =====
-- The invariant of the control loop of host_executor.go.
use sync_bridge.HostExecutor.Control.{
  Control, Outcome, Reason, start_control, goes_on, SignalAnswer, returns, initiate_first, armed,
  signal_failed, begun, initiate, probe_group, ControlError, term_signal, Probe, Signal,
  raise_reason, probed, probe_failed, note_inspection, observed, behind_leader, kill_group,
  poll_or_return, kill_signal, end_if, no_reason, kill_answered, not_killed, live_or_return, step,
  Reaches, enabled, later, grace_ends, lost, Event, leader_lost, leader_exits, stop_asked,
  context_ends, context_reason, time_out, timeout_reason, polls,
}
use sync_bridge.HostExecutor.Control.{here, later, delivered, no_process, signal_failed}
use sync_bridge.Base.{
  zero, suc, ◌≡◌, refl, [], ◌∷◌, true, false, ℤ, ◌&&◌, Bool, not, arith, List, ◌++◌, if◌then◌else◌,
  none, String, ◌||◌, ap, ◌∙◌, subst, ℕ, sym, ◌==◌, nat_keyed,
}

abbrev pub replicate {ℓ} : {A : Type ℓ} → ℕ → A → List A
replicate zero x = []
replicate (suc n) x = x ∷ replicate n x

-- What was sent to the group: some TERMs, and then KILL, if it was sent, with a TERM before it. At
-- least one TERM was sent where the end has begun.
abbrev pub Sent : Bool → Bool → List Signal → Type 0
Sent initiated killed signals =
    (terms : ℕ) × (signals
      ≡ replicate terms term_signal ++ (if killed then kill_signal ∷ [] else []))
    × (((initiated || killed) && terms == 0) ≡ false)

replicate-append : (n : ℕ) (x : Signal) → replicate n x ++ (x ∷ []) ≡ replicate (suc n) x
replicate-append zero x = refl
replicate-append (suc n) x = ap (λ xs. x ∷ xs) (replicate-append n x)

append-nil : (xs : List Signal) → xs ++ [] ≡ xs
append-nil [] = refl
append-nil (x ∷ xs) = ap (λ ys. x ∷ ys) (append-nil xs)

-- One more TERM before KILL.
term-Sent :
    (initiated : Bool) (killed : Bool) (signals : List Signal)
    → killed ≡ false
    → Sent initiated killed signals
    → Sent true killed (signals ++ (term_signal ∷ []))
term-Sent initiated true signals k sent = absurd (cc k)
term-Sent initiated false signals k (terms, all, some_sent) = (
  suc terms,
  ap (λ xs. xs ++ (term_signal ∷ [])) (all ∙ append-nil (replicate terms term_signal))
      ∙ replicate-append terms term_signal
      ∙ sym (append-nil (replicate (suc terms) term_signal)),
  ground arith,
)

-- A TERM to a group that is gone begins no end.
idle-Sent :
    (killed : Bool) (signals : List Signal) → Sent true killed signals → Sent false killed signals
idle-Sent killed signals (terms, all, some_sent) = (terms, all, ground (arith, some_sent))

-- KILL behind the TERMs, once.
kill-Sent :
    (initiated killed : Bool) (signals : List Signal)
    → initiated ≡ true
    → killed ≡ false
    → Sent initiated killed signals
    → Sent initiated true (signals ++ (kill_signal ∷ []))
kill-Sent initiated true signals i k sent = absurd (cc k)
kill-Sent initiated false signals i k (terms, all, some_sent) = (
  terms,
  ap (λ xs. xs ++ (kill_signal ∷ [])) (all ∙ append-nil (replicate terms term_signal)),
  ground (arith, some_sent, i),
)

-- What holds of the loop between two rounds.
pub record IsSound (s : Control) : Type 0 where
  pub sent : Sent s.initiated s.kill_sent s.signals
  pub kill_behind_term : (s.kill_sent && not s.initiated) ≡ false
  pub grace_between : armed s.grace_timer ≡ (s.initiated && not s.kill_sent)
  pub ends_seen : (s.observation_done && not (armed s.grace_timer)) ≡ false
  pub leader_once : s.leader_open ≡ not s.observation_done
  pub observed_done : (s.leader_observed && not s.observation_done) ≡ false
  pub polls_observed : (s.poll_armed && not s.leader_observed) ≡ false
  pub one_timer : (s.timeout_armed && s.initiated) ≡ false
  pub escalated_sent : (s.kill_escalated && not s.kill_sent) ≡ false

pub start_control-IsSound : (timeout : ℤ) → IsSound (start_control timeout)
start_control-IsSound timeout = record {
  sent = (0, refl, refl);
  kill_behind_term = refl;
  grace_between = refl;
  ends_seen = refl;
  leader_once = refl;
  observed_done = refl;
  polls_observed = refl;
  one_timer = ground arith;
  escalated_sent = refl;
}

abbrev SoundNext : Outcome → Type 0
SoundNext (goes_on t) = IsSound t
SoundNext (returns t) = Unit

abbrev SoundPair : Control × Bool → Type 0
SoundPair p = IsSound p.0

begun-IsSound :
    (asked : Reason) (grace : ℤ) (answer : SignalAnswer) (s : Control)
    → s.initiated ≡ false
    → IsSound s
    → IsSound (begun asked grace answer s)
begun-IsSound asked grace answer s fresh i = record {
  sent = term-Sent s.initiated s.kill_sent s.signals (ground (arith, i.kill_behind_term)) i.sent;
  kill_behind_term = ground (arith, i.kill_behind_term);
  grace_between = ground (arith, i.kill_behind_term);
  ends_seen = ground arith;
  leader_once = i.leader_once;
  observed_done = i.observed_done;
  polls_observed = i.polls_observed;
  one_timer = refl;
  escalated_sent = i.escalated_sent;
}

-- Fields that the invariant does not read.
kept-IsSound :
    (s : Control) (asked : Reason) (context : Bool) (errors : List ControlError) (recorded : Bool)
    (signals : List Signal)
    → Sent s.initiated s.kill_sent signals
    → IsSound s
    → IsSound (record s {
      reason = asked;
      context_open = context;
      errors = errors;
      probe_error_recorded = recorded;
      signals = signals;
    })
kept-IsSound s asked context errors recorded signals sent i = record {
  sent = sent;
  kill_behind_term = i.kill_behind_term;
  grace_between = i.grace_between;
  ends_seen = i.ends_seen;
  leader_once = i.leader_once;
  observed_done = i.observed_done;
  polls_observed = i.polls_observed;
  one_timer = i.one_timer;
  escalated_sent = i.escalated_sent;
}

initiate_first-IsSound :
    (asked : Reason) (grace : ℤ) (answer : SignalAnswer) (s : Control)
    → s.initiated ≡ false
    → IsSound s
    → IsSound (initiate_first asked grace answer s).0
initiate_first-IsSound asked grace delivered s fresh i =
    begun-IsSound asked grace delivered s fresh i
initiate_first-IsSound asked grace no_process s fresh i =
    kept-IsSound s s.reason s.context_open s.errors s.probe_error_recorded
      (s.signals ++ (term_signal ∷ []))
      (subst (λ b. Sent b s.kill_sent (s.signals ++ (term_signal ∷ []))) (sym fresh)
        (idle-Sent s.kill_sent (s.signals ++ (term_signal ∷ [])) (
          term-Sent s.initiated s.kill_sent s.signals (ground (arith, i.kill_behind_term)) i.sent)))
      i
initiate_first-IsSound asked grace (signal_failed e) s fresh i =
    begun-IsSound asked grace (signal_failed e) s fresh i

initiate-IsSound :
    (asked : Reason) (grace : ℤ) (answer : SignalAnswer) (s : Control)
    → IsSound s
    → IsSound (initiate asked grace answer s).0
unfolding initiate
initiate-IsSound asked grace answer s i = at s.initiated refl
  where
    at :
        (b : Bool)
        → s.initiated ≡ b
        → IsSound
            (if b
              then (record s { reason = raise_reason asked s.reason }, true)
              else initiate_first asked grace answer s).0
    at true q =
        kept-IsSound s (raise_reason asked s.reason) s.context_open s.errors s.probe_error_recorded
          s.signals i.sent i
    at false q = initiate_first-IsSound asked grace answer s q i

probe_group-IsSound : (probe : Probe) (s : Control) → IsSound s → IsSound (probe_group probe s).0
unfolding probe_group
probe_group-IsSound (probed live) s i = i
probe_group-IsSound (probe_failed e) s i =
    kept-IsSound s s.reason s.context_open (note_inspection s.probe_error_recorded e s.errors) true
      s.signals i.sent i

without_timeout-IsSound : (s : Control) → IsSound s → IsSound (record s { timeout_armed = false })
without_timeout-IsSound s i = record {
  sent = i.sent;
  kill_behind_term = i.kill_behind_term;
  grace_between = i.grace_between;
  ends_seen = i.ends_seen;
  leader_once = i.leader_once;
  observed_done = i.observed_done;
  polls_observed = i.polls_observed;
  one_timer = refl;
  escalated_sent = i.escalated_sent;
}

seen-IsSound :
    (s : Control)
    → s.initiated ≡ true
    → s.kill_sent ≡ false
    → armed s.grace_timer ≡ true
    → s.timeout_armed ≡ false
    → (s.kill_escalated && not s.kill_sent) ≡ false
    → Sent s.initiated s.kill_sent s.signals
    → IsSound (record (observed s) { poll_armed = true })
seen-IsSound s begun_now live timer single escalated sent = record {
  sent = sent;
  kill_behind_term = ground (arith, begun_now);
  grace_between = ground (arith, begun_now, live, timer);
  ends_seen = ground (arith, timer);
  leader_once = refl;
  observed_done = refl;
  polls_observed = refl;
  one_timer = ground (arith, single);
  escalated_sent = escalated;
}

behind_leader-IsSound :
    (default_grace : ℤ) (answer : SignalAnswer) (s : Control)
    → s.kill_sent ≡ false
    → IsSound s
    → SoundNext (behind_leader default_grace answer (observed s, true))
unfolding initiate
behind_leader-IsSound default_grace answer s live i = at s.initiated refl
  where
    first :
        (a : SignalAnswer)
        → s.initiated ≡ false
        → SoundNext (poll_or_return (initiate_first no_reason default_grace a (observed s)))
    first no_process q = tt
    first delivered q =
        seen-IsSound (begun no_reason default_grace delivered s) refl live refl refl
          i.escalated_sent (term-Sent s.initiated s.kill_sent s.signals live i.sent)
    first (signal_failed e) q =
        seen-IsSound (begun no_reason default_grace (signal_failed e) s) refl live refl refl
          i.escalated_sent (term-Sent s.initiated s.kill_sent s.signals live i.sent)

    at :
        (b : Bool)
        → s.initiated ≡ b
        → SoundNext (
            if b
            then poll_or_return (observed s, true)
            else poll_or_return (
                if b
                then (record (observed s) { reason = raise_reason no_reason s.reason }, true)
                else initiate_first no_reason default_grace answer (observed s)))
    at true q =
        seen-IsSound s q live (ground (arith, i.grace_between)) (ground (arith, i.one_timer))
          i.escalated_sent i.sent
    at false q = first answer q

leader_exits-IsSound :
    (default_grace : ℤ) (probe : Probe) (answer : SignalAnswer) (s : Control)
    → s.kill_sent ≡ false
    → IsSound s
    → SoundNext (behind_leader default_grace answer (probe_group probe (observed s)))
unfolding probe_group
leader_exits-IsSound default_grace (probed true) answer s live i =
    behind_leader-IsSound default_grace answer s live i
leader_exits-IsSound default_grace (probed false) answer s live i = tt
leader_exits-IsSound default_grace (probe_failed e) answer s live i =
    behind_leader-IsSound default_grace answer
      (record s {
        errors = note_inspection s.probe_error_recorded e s.errors;
        probe_error_recorded = true;
      })
      live
      (kept-IsSound s s.reason s.context_open (note_inspection s.probe_error_recorded e s.errors)
        true s.signals i.sent i)

killed_once-IsSound :
    (s : Control) (escalated : Bool) (errors : List ControlError)
    → armed s.grace_timer ≡ true
    → s.observation_done ≡ false
    → IsSound s
    → IsSound (record s {
      kill_escalated = escalated;
      errors = errors;
      kill_sent = true;
      grace_timer = none;
      poll_armed = false;
      signals = s.signals ++ (kill_signal ∷ []);
    })
killed_once-IsSound s escalated errors timer unseen i = record {
  sent =
      kill-Sent s.initiated s.kill_sent s.signals (ground (arith, timer, i.grace_between))
        (ground (arith, timer, i.grace_between)) i.sent;
  kill_behind_term = ground (arith, i.grace_between);
  grace_between = ground arith;
  ends_seen = ground (arith, unseen);
  leader_once = i.leader_once;
  observed_done = i.observed_done;
  polls_observed = refl;
  one_timer = i.one_timer;
  escalated_sent = ground arith;
}

kill_group-IsSound :
    (answer : SignalAnswer) (s : Control)
    → armed s.grace_timer ≡ true
    → IsSound s
    → SoundNext (kill_group answer s)
kill_group-IsSound answer s timer i = at s.observation_done refl answer
  where
    at :
        (b : Bool)
        → s.observation_done ≡ b
        → (a : SignalAnswer)
        → SoundNext (
            end_if b (record (kill_answered a s) {
              kill_sent = true;
              grace_timer = none;
              poll_armed = false;
              signals = s.signals ++ (kill_signal ∷ []);
            }))
    at true q a = tt
    at false q delivered = killed_once-IsSound s true s.errors timer q i
    at false q no_process = killed_once-IsSound s s.kill_escalated s.errors timer q i
    at false q (signal_failed e) =
        killed_once-IsSound s s.kill_escalated (s.errors ++ (not_killed e ∷ [])) timer q i

end_if-IsSound : (b : Bool) (s : Control) → (b ≡ false → IsSound s) → SoundNext (end_if b s)
end_if-IsSound true s f = tt
end_if-IsSound false s f = f refl

lost-IsSound :
    (e : String) (s : Control)
    → (not s.initiated || s.kill_sent) ≡ false
    → IsSound s
    → IsSound (lost e s)
lost-IsSound e s going i = record {
  sent = i.sent;
  kill_behind_term = i.kill_behind_term;
  grace_between = i.grace_between;
  ends_seen = ground (arith, going, i.grace_between);
  leader_once = refl;
  observed_done = ground arith;
  polls_observed = i.polls_observed;
  one_timer = i.one_timer;
  escalated_sent = i.escalated_sent;
}

leader_round-IsSound :
    (default_grace : ℤ) (probe : Probe) (answer : SignalAnswer) (s : Control) (b : Bool)
    → s.kill_sent ≡ b
    → IsSound s
    → SoundNext (
        if b
        then returns (observed s)
        else behind_leader default_grace answer (probe_group probe (observed s)))
leader_round-IsSound default_grace probe answer s true q i = tt
leader_round-IsSound default_grace probe answer s false q i =
    leader_exits-IsSound default_grace probe answer s q i

live_or_return-IsSound :
    (next : Control → Outcome) (p : Control × Bool)
    → SoundNext (next p.0)
    → SoundNext (live_or_return next p)
live_or_return-IsSound next (s, true) h = h
live_or_return-IsSound next (s, false) h = tt

probe_group-timer :
    (probe : Probe) (s : Control) → (probe_group probe s).0.grace_timer ≡ s.grace_timer
unfolding probe_group
probe_group-timer (probed live) s = refl
probe_group-timer (probe_failed e) s = refl

grace_round-IsSound :
    (probe : Probe) (answer : SignalAnswer) (s : Control) (b : Bool)
    → armed s.grace_timer ≡ true
    → IsSound s
    → SoundNext (
        if b then live_or_return (kill_group answer) (probe_group probe s) else kill_group answer s)
grace_round-IsSound probe answer s true timer i =
    live_or_return-IsSound (kill_group answer) (probe_group probe s) (
      kill_group-IsSound answer (probe_group probe s).0
        (ap armed (probe_group-timer probe s) ∙ timer) (probe_group-IsSound probe s i))
grace_round-IsSound probe answer s false timer i = kill_group-IsSound answer s timer i

without_context-IsSound : (s : Control) → IsSound s → IsSound (record s { context_open = false })
without_context-IsSound s i =
    kept-IsSound s s.reason false s.errors s.probe_error_recorded s.signals i.sent i

-- Every round keeps the invariant, or ends the loop.
step-IsSound :
    (default_grace : ℤ) (event : Event) (s : Control)
    → enabled event s ≡ true
    → IsSound s
    → SoundNext (step default_grace event s)
unfolding step enabled
step-IsSound d (leader_lost e) s on i =
    end_if-IsSound (not s.initiated || s.kill_sent) (lost e s) (λ q. lost-IsSound e s q i)
step-IsSound d (leader_exits probe answer) s on i =
    leader_round-IsSound d probe answer s s.kill_sent refl i
step-IsSound d (stop_asked asked grace answer) s on i = initiate-IsSound asked grace answer s i
step-IsSound d (context_ends deadline answer) s on i =
    without_context-IsSound (initiate (context_reason deadline) d answer s).0
      (initiate-IsSound (context_reason deadline) d answer s i)
step-IsSound d (time_out answer) s on i =
    without_timeout-IsSound (initiate timeout_reason d answer s).0
      (initiate-IsSound timeout_reason d answer s i)
step-IsSound d (polls probe) s on i =
    live_or_return-IsSound goes_on (probe_group probe s) (probe_group-IsSound probe s i)
step-IsSound d (grace_ends probe answer) s on i =
    grace_round-IsSound probe answer s s.leader_observed on i

Reaches-keeps :
    (default_grace : ℤ) (s t : Control) → Reaches default_grace s t → IsSound s → IsSound t
Reaches-keeps d s t here i = i
Reaches-keeps d s t (later {t = next} event on eq more) i =
    Reaches-keeps d next t more (subst SoundNext eq (step-IsSound d event s on i))

-- In every state that the loop reaches from its start: KILL was sent at most once, behind a TERM and with
-- nothing behind it. The grace timer runs just between the begin of the end and KILL, and whenever the leader's exit was
-- seen; polls come only behind that exit, and the timeout and the grace timer never run together.
pub Reaches-IsSound :
    (default_grace timeout : ℤ) (s : Control)
    → Reaches default_grace (start_control timeout) s
    → IsSound s
Reaches-IsSound d timeout s r =
    Reaches-keeps d (start_control timeout) s r (start_control-IsSound timeout)
