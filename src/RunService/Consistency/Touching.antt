-- ===== src/RunService/Consistency/Touching.antt =====
-- Changes of run_service.go to a run that concern none of the slots: its log, its error texts, a stop
-- that is noted.
use sync_bridge.Base.{
  ℕ, ◌≡◌, refl, sym, ap, ◌∙◌, ◌⊎◌, inl, inr, List, Option, none, some, ℤ, String, lookup, insert,
  nat_keyed, int_keyed, Bool-cases, Option-cases, lookup-All,
}
use sync_bridge.RunService.State.{
  RunState, Phase, compiling, installing, installed, launching, executing, waiting, finishing,
  Ticket, Service, has_ended, is_terminal_run_status, is_queued,
}
use sync_bridge.RunService.Events.{publish_log, publish_log_of}
use sync_bridge.RunService.Finish.{note_history_error, persist_history, take_turn}
use sync_bridge.RunService.Worker.{logged_run, log_found, consume_log}
use sync_bridge.RunService.Retention.Laws.{Runs}
use sync_bridge.RunService.Consistency.{Live, Waits, Fits, IsSlotted, IsConsistent}
use sync_bridge.RunService.Consistency.Slots.{insert-IsSlotted}
use sync_bridge.RunService.Consistency.Finishing.{publish_locked-IsConsistent}

-- The two runs agree in all that the slots and the workers depend on.
pub record SameCore (old r : RunState) : Type 0 where
  pub same_id : r.snapshot.id ≡ old.snapshot.id
  pub same_job : r.snapshot.job_id ≡ old.snapshot.job_id
  pub same_status : r.snapshot.status ≡ old.snapshot.status
  pub same_starting : r.starting ≡ old.starting
  pub same_handle : r.handle ≡ old.handle

module _ (old r : RunState) (c : SameCore old r) where
  SameCore-Live : (j : ℤ) → Live j (some old) → Live j (some r)
  SameCore-Live j l = (c.same_job ∙ l.0, ap is_terminal_run_status c.same_status ∙ l.1)

  SameCore-Waits : (j : ℤ) → Waits j (some old) → Waits j (some r)
  SameCore-Waits j w = (c.same_job ∙ w.0, ap is_queued c.same_status ∙ w.1, c.same_starting ∙ w.2)

  SameCore-Early : Fits compiling (some old) → Fits compiling (some r)
  SameCore-Early (inl e) = inl (ap is_terminal_run_status c.same_status ∙ e)
  SameCore-Early (inr (p, q)) = inr (ap is_queued c.same_status ∙ p, c.same_starting ∙ q)

  SameCore-Fits : (ph : Phase) → Fits ph (some old) → Fits ph (some r)
  SameCore-Fits compiling f = SameCore-Early f
  SameCore-Fits (installing p) f = SameCore-Early f
  SameCore-Fits (installed e p) f = SameCore-Early f
  SameCore-Fits (launching p) f = SameCore-Early f
  SameCore-Fits (executing p) f = (ap is_queued c.same_status ∙ f.0, c.same_starting ∙ f.1)
  SameCore-Fits (waiting h) f = (c.same_status ∙ f.0, c.same_handle ∙ f.1)
  SameCore-Fits (finishing res) f = f

pub touch-IsSlotted :
    {runs : Runs} {active pending : List (ℤ × ℕ)} {workers : List (ℕ × Phase)}
    (v : IsSlotted runs active pending workers) (id : ℕ) (old r : RunState)
    → lookup id runs ≡ some old
    → SameCore old r
    → IsSlotted (insert id r runs) active pending workers
touch-IsSlotted {runs} {active} {pending} v id old r e c =
    insert-IsSlotted v id r (c.same_id ∙ lookup-All _ runs id old v.named e)
      (λ j h. SameCore-Live old r c j (rw e at (v.active_live j id h).0))
      (λ j h. SameCore-Waits old r c j (rw e at (v.pending_waits j id h).0))
      (λ alive.
        rw c.same_job (v.owned id old e (sym (ap is_terminal_run_status c.same_status) ∙ alive)))
      (λ ph h. SameCore-Fits old r c ph (rw e at (v.staffed id ph h)))

pub touch-IsConsistent :
    (s : Service)
    → IsConsistent s
    → (id : ℕ) (old r : RunState) → lookup id s.runs ≡ some old
    → SameCore old r
    → IsConsistent (record s { runs = insert id r s.runs })
touch-IsConsistent s v id old r e c = record {
  slotted = touch-IsSlotted v.slotted id old r e c;
  behind = v.behind;
  safe = v.safe;
}

publish_log-IsConsistent :
    (id : ℕ) (line : List ℕ) (s : Service) → IsConsistent s → IsConsistent (publish_log id line s)
unfolding publish_log publish_log_of
publish_log-IsConsistent id line s v = of (lookup id s.runs)
  where
    of : (o : Option RunState) → IsConsistent (publish_log_of line s o)
    of none = v
    of (some run) = elim (Bool-cases (has_ended run)) [
      | inl q ↦ rw q v
      | inr q ↦ rw q (record { slotted = v.slotted; behind = v.behind; safe = v.safe })
    ]

pub consume_log-IsConsistent :
    (now id : ℕ) (line : List ℕ) (s : Service)
    → IsConsistent s
    → IsConsistent (consume_log now id line s)
unfolding consume_log
consume_log-IsConsistent now id line s v =
    publish_log-IsConsistent id line _ (logged (Option-cases (lookup id s.runs)))
  where
    logged :
        (lookup id s.runs ≡ none) ⊎ ((run : RunState) × (lookup id s.runs ≡ some run))
        → IsConsistent (log_found now id line s (lookup id s.runs))
    logged (inl e) = unfold log_found in rw e v
    logged (inr (run, e)) =
        unfold log_found logged_run in
        rw e (
          touch-IsConsistent s v id run (logged_run now line run) e (record {
            same_id = refl;
            same_job = refl;
            same_status = refl;
            same_starting = refl;
            same_handle = refl;
          }))

note_history_error-IsConsistent :
    (t : Ticket) (outcome : Option String) (s : Service)
    → IsConsistent s
    → IsConsistent (note_history_error t outcome s)
unfolding note_history_error
note_history_error-IsConsistent t none s v = v
note_history_error-IsConsistent t (some text) s v =
    elim (Option-cases (lookup t.snapshot.id s.runs)) [
      | inl e ↦ rw (e, note_history_error) v
      | inr (run, e) ↦
          rw (e, note_history_error)
            (publish_locked-IsConsistent _ _ (
              touch-IsConsistent s v t.snapshot.id run
                (record run { snapshot = record run.snapshot { history_error = text } }) e
                (record {
                  same_id = refl;
                  same_job = refl;
                  same_status = refl;
                  same_starting = refl;
                  same_handle = refl;
                })))
    ]

pub persist_history-IsConsistent :
    (outcome : Option String) (s : Service)
    → IsConsistent s
    → IsConsistent (persist_history outcome s)
unfolding persist_history
persist_history-IsConsistent outcome s v =
    elim (Option-cases (take_turn s.history_next s.tickets).0) [
      | inl e ↦ rw (e, persist_history) v
      | inr (t, e) ↦
          rw (e, persist_history)
            (note_history_error-IsConsistent t outcome _
              (record { slotted = v.slotted; behind = v.behind; safe = v.safe }))
    ]
