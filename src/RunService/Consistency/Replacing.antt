-- ===== src/RunService/Consistency/Replacing.antt =====
-- `Start` of run_service.go: the pending run that a newer one replaces.
use mathlib.Core.Option
use sync_bridge.Base.{
  ◌⊎◌, true, ◌∷◌, lookup-insert_self, ℕ, ◌-◌, ◌≡◌, refl, subst, Option-cases, sym, ap, ◌∙◌, inl,
  inr, false, Option, none, some, ℤ, lookup, insert, nat_keyed, int_keyed, string_keyed, lookup-All,
  lookup-insert_ne, insert-Unique, insert-All,
}
use sync_bridge.RunService.State.{RunState, Service, has_ended, Ticket, skipped_overlap}
use sync_bridge.RunService.Events.{publish_locked}
use sync_bridge.RunService.Retention.{trim_locked, trim_log}
use sync_bridge.RunService.Retention.Laws.{Kept, trim_runs-Kept}
use sync_bridge.RunService.Finish.{
  finished_run, close_run, finish_live, finish_found, finish_locked, take_ticket,
  ticket_if_finished, promote, promote_next,
}
use sync_bridge.RunService.Start.{replace_previous, replaced_result}
use sync_bridge.RunService.Consistency.{Waits, Present, IsConsistent}
use sync_bridge.RunService.Consistency.Slots.{Waits-Live}
use sync_bridge.RunService.Consistency.Closing.{lookup-release_self, lookup-release_ne}
use sync_bridge.RunService.Consistency.Finishing.{
  finish_locked-IsConsistent, ticket_if_finished-IsConsistent,
}
use sync_bridge.RunService.Consistency.Reserving.{IsFresh}

-- What the pending slot of a job and a fresh ID find once the previous pending run is replaced.
pub record IsReady (job : ℤ) (id : ℕ) (s : Service) : Type 0 where
  pub consistent : IsConsistent s
  pub fresh : IsFresh id s
  pub vacant : lookup job s.pending ≡ none
  pub busy : Present (lookup job s.active)

-- A run that ended as skipped: the record of its end is the last one that waits for the history file,
-- and it is on the list of runs as ended, or no longer.
abbrev pub EndsSkipped : ℕ → Service → Service → Type 0
EndsSkipped previous s t =
    ((ticket : Ticket) × (t.tickets ≡ ticket ∷ s.tickets)
      × (ticket.snapshot.id ≡ previous)
      × (ticket.snapshot.status ≡ skipped_overlap))
    × ((lookup previous t.runs ≡ none)
        ⊎ ((run : RunState) × (lookup previous t.runs ≡ some run) × (has_ended run ≡ true)))

-- What became of the pending run, if there was one.
abbrev pub Replaced : Service → Service → Option ℕ → Type 0
Replaced s t none = t.tickets ≡ s.tickets
Replaced s t (some previous) = EndsSkipped previous s t

-- The part of the service that the slots and the freshness depend on is not the ticket.
ticket-IsReady :
    (job : ℤ) (id : ℕ) (x : Service × Option RunState)
    → IsReady job id x.0
    → IsReady job id (ticket_if_finished x)
unfolding ticket_if_finished take_ticket
ticket-IsReady job id (s, none) r = r
ticket-IsReady job id (s, some run) r = record {
  consistent = ticket_if_finished-IsConsistent (s, some run) r.consistent;
  fresh = record { no_run = r.fresh.no_run; no_worker = r.fresh.no_worker };
  vacant = r.vacant;
  busy = r.busy;
}

promote_vacant : (job : ℤ) (t : Service) → lookup job t.pending ≡ none → promote job t ≡ t
unfolding promote promote_next
promote_vacant job t e = rw e refl

Kept-none : (c : ℕ) (o' : Option RunState) → Kept c none o' → o' ≡ none
Kept-none c o' (inl e) = e
Kept-none c o' (inr (e, ended)) = e

module _ (now id : ℕ) (job : ℤ) (s : Service) (v : IsConsistent s) (fresh : IsFresh id s) (held : ℕ)
    (busy : lookup job s.active ≡ some held) (previous : ℕ)
    (taken : lookup job s.pending ≡ some previous) where
  -- The state between the end of the replaced run and the promotion, which finds nobody.
  abbrev closing : RunState → Service
  closing run =
      let done = finished_run now replaced_result run in
      trim_locked now (publish_locked done.snapshot (close_run done s))

  not_held : ¬ (held ≡ previous)
  not_held p =
      rw (p, (v.slotted.pending_waits job previous taken).1) at
        (v.slotted.active_live job held busy).1

  closing_vacant :
      (run : RunState)
      → run.snapshot.id ≡ previous
      → run.snapshot.job_id ≡ job
      → lookup job (closing run).pending ≡ none
  unfolding trim_locked publish_locked close_run finished_run
  closing_vacant run name same = rw (name, same) (lookup-release_self job previous s.pending taken)

  closing_busy :
      (run : RunState)
      → run.snapshot.id ≡ previous
      → run.snapshot.job_id ≡ job
      → Present (lookup job (closing run).active)
  unfolding trim_locked publish_locked close_run finished_run
  closing_busy run name same =
      rw (name, same, lookup-release_ne job job previous held s.active busy not_held) tt

  closing-IsFresh :
      (run : RunState)
      → lookup previous s.runs ≡ some run
      → run.snapshot.id ≡ previous
      → IsFresh id (closing run)
  unfolding trim_locked publish_locked close_run
  closing-IsFresh run e name = record {
    no_run = Kept-none (now - s.limits.max_age) _ (
        rw unseen at (
          trim_runs-Kept now s.limits (insert done.snapshot.id done s.runs)
            (insert-Unique done.snapshot.id done s.runs v.slotted.unique)
            (insert-All _ done.snapshot.id done s.runs refl v.slotted.named) id));
    no_worker = fresh.no_worker;
  }
    where
      done : RunState
      done = finished_run now replaced_result run

      done_name : done.snapshot.id ≡ previous
      done_name = unfold finished_run in name

      unseen : lookup id (insert done.snapshot.id done s.runs) ≡ none
      unseen =
          lookup-insert_ne done.snapshot.id id done s.runs
            (λ p. cc (fresh.no_run, ap (λ i. lookup i s.runs) (sym p ∙ done_name), e))
          ∙ fresh.no_run

  finish-IsReady :
      (run : RunState)
      → lookup previous s.runs ≡ some run
      → Waits job (some run)
      → IsReady job id (finish_locked now previous replaced_result s).0
  unfolding finish_locked
  finish-IsReady run e w = record {
    consistent = whole;
    fresh =
        rw (e, finish_found, alive, finish_live)
          (same_state IsFresh_here (closing-IsFresh run e name));
    vacant =
        rw (e, finish_found, alive, finish_live)
          (same_state (λ t. lookup job t.pending ≡ none) (closing_vacant run name w.0));
    busy =
        rw (e, finish_found, alive, finish_live)
          (same_state (λ t. Present (lookup job t.active)) (closing_busy run name w.0));
  }
    where
      alive : has_ended run ≡ false
      alive = (Waits-Live job (some run) w).1

      name : run.snapshot.id ≡ previous
      name = lookup-All _ s.runs previous run v.slotted.named e

      IsFresh_here : Service → Type 0
      IsFresh_here t = IsFresh id t

      whole : IsConsistent (finish_found now replaced_result s (lookup previous s.runs)).0
      whole =
          finish_locked-IsConsistent now previous replaced_result s v (inl refl)
            (λ ph h. absurd (cc ((v.slotted.pending_waits job previous taken).1, h)))

      same_state :
          (P : Service → Type 0) → P (closing run) → P (promote run.snapshot.job_id (closing run))
      same_state P p =
          subst P
            (sym (
              promote_vacant run.snapshot.job_id (closing run)
                (ap (λ k. lookup k (closing run).pending) w.0 ∙ closing_vacant run name w.0)))
            p

  replace_previous-IsReady : IsReady job id (replace_previous now s (some previous))
  unfolding replace_previous
  replace_previous-IsReady = elim (Option-cases (lookup previous s.runs)) [
    | inl e ↦ absurd (rw e at (v.slotted.pending_waits job previous taken).0)
    | inr (run, e) ↦
        ticket-IsReady job id (finish_locked now previous replaced_result s)
          (finish-IsReady run e (rw e at (v.slotted.pending_waits job previous taken).0))
  ]

  closing-ended :
      (run : RunState)
      → run.snapshot.id ≡ previous
      → (lookup previous (closing run).runs ≡ none)
        ⊎ ((r : RunState) × (lookup previous (closing run).runs ≡ some r) × (has_ended r ≡ true))
  unfolding trim_locked publish_locked close_run
  closing-ended run name = elim kept [
    | inl p ↦
        inr (trim_log cutoff done, p ∙ ap (λ o. Option.map (trim_log cutoff) o) found, terminal)
    | inr p ↦ inl p.0
  ]
    where
      done : RunState
      done = finished_run now replaced_result run

      cutoff : ℕ
      cutoff = now - s.limits.max_age

      done_name : done.snapshot.id ≡ previous
      done_name = unfold finished_run in name

      found : lookup previous (insert done.snapshot.id done s.runs) ≡ some done
      found =
          ap (λ i. lookup i (insert done.snapshot.id done s.runs)) (sym done_name)
          ∙ lookup-insert_self done.snapshot.id done s.runs

      terminal : has_ended (trim_log cutoff done) ≡ true
      terminal = unfold trim_log finished_run in refl

      kept :
          Kept cutoff
            (lookup previous (insert done.snapshot.id done s.runs))
            (lookup previous (closing run).runs)
      kept =
          trim_runs-Kept now s.limits (insert done.snapshot.id done s.runs)
            (insert-Unique done.snapshot.id done s.runs v.slotted.unique)
            (insert-All _ done.snapshot.id done s.runs refl v.slotted.named) previous

  -- The section that ends the run that waits.
  finish-closing :
      (run : RunState)
      → lookup previous s.runs ≡ some run
      → Waits job (some run)
      → finish_locked now previous replaced_result s ≡ (
        closing run,
        some (trim_log (now - s.limits.max_age) (finished_run now replaced_result run)),
      )
  unfolding finish_locked
  finish-closing run e w =
      let alive : has_ended run ≡ false = (Waits-Live job (some run) w).1 in
      let name : run.snapshot.id ≡ previous = lookup-All _ s.runs previous run v.slotted.named e in
      rw (e, finish_found, alive, finish_live)
        (ap
          (λ t.
            (t, some (trim_log (now - s.limits.max_age) (finished_run now replaced_result run))))
          (promote_vacant run.snapshot.job_id (closing run)
            (ap (λ k. lookup k (closing run).pending) w.0 ∙ closing_vacant run name w.0)))

  ticket-EndsSkipped :
      (run : RunState)
      → run.snapshot.id ≡ previous
      → EndsSkipped previous s (
          ticket_if_finished (
            closing run,
            some (trim_log (now - s.limits.max_age) (finished_run now replaced_result run)),
          ))
  unfolding ticket_if_finished take_ticket trim_log finished_run trim_locked publish_locked
      close_run
  ticket-EndsSkipped run name = ((_, refl, name, refl), closing-ended run name)

  replace_previous-EndsSkipped : EndsSkipped previous s (replace_previous now s (some previous))
  unfolding replace_previous
  replace_previous-EndsSkipped = elim (Option-cases (lookup previous s.runs)) [
    | inl e ↦ absurd (rw e at (v.slotted.pending_waits job previous taken).0)
    | inr (run, e) ↦
        subst (λ x. EndsSkipped previous s (ticket_if_finished x))
          (sym (finish-closing run e (rw e at (v.slotted.pending_waits job previous taken).0)))
          (ticket-EndsSkipped run (lookup-All _ s.runs previous run v.slotted.named e))
  ]

pub replace_any-Replaced :
    (now id : ℕ) (job : ℤ) (s : Service)
    → IsConsistent s
    → IsFresh id s
    → (held : ℕ) → lookup job s.active ≡ some held
    → Replaced s (replace_previous now s (lookup job s.pending)) (lookup job s.pending)
replace_any-Replaced now id job s v fresh held busy = elim (Option-cases (lookup job s.pending)) [
  | inl e ↦ rw e (unfold replace_previous in refl)
  | inr (previous, e) ↦
      rw e (replace_previous-EndsSkipped now id job s v fresh held busy previous e)
]

pub replace_any-IsReady :
    (now id : ℕ) (job : ℤ) (s : Service)
    → IsConsistent s
    → IsFresh id s
    → (held : ℕ) → lookup job s.active ≡ some held
    → IsReady job id (replace_previous now s (lookup job s.pending))
replace_any-IsReady now id job s v fresh held busy = elim (Option-cases (lookup job s.pending)) [
  | inl e ↦ rw e (
      unfold replace_previous in
      (record { consistent = v; fresh = fresh; vacant = e; busy = rw busy tt }))
  | inr (previous, e) ↦ rw e (replace_previous-IsReady now id job s v fresh held busy previous e)
]
