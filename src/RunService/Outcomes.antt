-- ===== src/RunService/Outcomes.antt =====
-- What `Start` and `Stop` of run_service.go do in each situation.
use sync_bridge.Base.{
  ℕ, ◌≡◌, refl, ◌⊎◌, inl, inr, true, false, not, ◌&&◌, ◌∷◌, none, some, lookup, nat_keyed,
  int_keyed, string_keyed, ◌==◌, Option-cases, lookup-insert_self, Option, insert, ◌∙◌,
  lookup-insert_ne, ap, sym,
}
use native.Mathlib.Omega.{arith}
use sync_bridge.Job.{Job}
use sync_bridge.RunService.State.{StartRunInput, RunState, PlanIdentity, executing, Service}
use sync_bridge.RunService.Events.{publish_locked}
use sync_bridge.RunService.Start.{
  StartOutcome, reserved, new_run, replace_previous, enqueue_run, reserve_by, reserve,
  start_with_id, start,
}
use sync_bridge.RunService.Worker.{launched, mark_running, goes_to, advance}
use sync_bridge.RunService.Control.{stop, stop_found, stopped, noted_stop}
use sync_bridge.RunService.Consistency.{Present, Launches, IsConsistent}
use sync_bridge.RunService.Consistency.Reserving.{IsFresh, fresh_pending}
use sync_bridge.RunService.Consistency.Replacing.{
  IsReady, replace_any-IsReady, Replaced, replace_any-Replaced,
}

-- The revision that the caller names, if any, is the job's.
abbrev pub Agrees : StartRunInput → Job → Type 0
Agrees input job = (input.revision ≡ 0) ⊎ (input.revision ≡ job.revision)

revision_test :
    (input : StartRunInput) (job : Job)
    → Agrees input job
    → (not (input.revision == 0) && not (input.revision == job.revision)) ≡ false
revision_test input job (inl e) = ground arith
revision_test input job (inr e) = ground arith

-- The run waits in the pending slot of its job, whose active slot is still taken; no worker has it,
-- and the run that was pending before has ended.
abbrev pub Enqueued : RunState → Service → Service × StartOutcome → Type 0
Enqueued run s (t, outcome) =
    (outcome ≡ reserved run.snapshot)
    × (lookup run.snapshot.id t.runs ≡ some run)
    × (lookup run.snapshot.job_id t.pending ≡ some run.snapshot.id)
    × Present (lookup run.snapshot.job_id t.active)
    × (lookup run.snapshot.id t.workers ≡ none)
    × Replaced s t (lookup run.snapshot.job_id s.pending)

enqueue_run-Replaced :
    (run : RunState) (x s : Service) (o : Option ℕ)
    → ((k : ℕ) → o ≡ some k → ¬ (run.snapshot.id ≡ k))
    → Replaced s x o
    → Replaced s (enqueue_run run x) o
unfolding enqueue_run publish_locked
enqueue_run-Replaced run x s none differ r = r
enqueue_run-Replaced run x s (some previous) differ (ticket, gone) =
    let same : lookup previous (insert run.snapshot.id run x.runs) ≡ lookup previous x.runs =
      lookup-insert_ne run.snapshot.id previous run x.runs (differ previous refl) in
    (ticket, elim gone [ inl q ↦ inl (same ∙ q) | inr (r, q, ended) ↦ inr (r, same ∙ q, ended) ])

enqueue_run-Enqueued :
    (run : RunState) (x s : Service)
    → Present (lookup run.snapshot.job_id x.active)
    → IsFresh run.snapshot.id x
    → ((k : ℕ) → lookup run.snapshot.job_id s.pending ≡ some k → ¬ (run.snapshot.id ≡ k))
    → Replaced s x (lookup run.snapshot.job_id s.pending)
    → Enqueued run s (enqueue_run run x, reserved run.snapshot)
unfolding enqueue_run publish_locked
enqueue_run-Enqueued run x s busy fresh differ replaced = (
  refl,
  lookup-insert_self run.snapshot.id run x.runs,
  lookup-insert_self run.snapshot.job_id run.snapshot.id x.pending,
  busy,
  fresh.no_worker,
  enqueue_run-Replaced run x s (lookup run.snapshot.job_id s.pending) differ replaced,
)

module _ (now : ℕ) (input : StartRunInput) (job : Job) (id : ℕ) (s : Service)
    (agrees : Agrees input job) where
  start_reserves :
      (P : Service × StartOutcome → Type 0)
      → P (reserve_by now (new_run now id job input s.limits) s (lookup job.id s.active))
      → P (start now input (some job) (some id) s)
  unfolding start start_with_id reserve new_run
  start_reserves P p = rw (revision_test input job agrees) p

  -- In a consistent state `Start` of a job with an active run under "queue-latest" puts the new run
  -- into the job's pending slot behind it. If another run was pending there, it has ended as skipped: a
  -- record of that waits for the history file, and it is no longer among the runs, or there as ended.
  pub start_enqueues :
      (held : ℕ)
      → IsConsistent s
      → IsFresh id s
      → lookup job.id s.active ≡ some held
      → (job.execution.overlap == "queue-latest") ≡ true
      → Enqueued (new_run now id job input s.limits) s (start now input (some job) (some id) s)
  start_enqueues held v fresh busy policy =
      start_reserves (Enqueued (new_run now id job input s.limits) s) (
        rw busy (
          unfold reserve_by in
          rw policy' (
            enqueue_run-Enqueued (new_run now id job input s.limits)
              (replace_previous now s (lookup (new_run now id job input s.limits).job.id s.pending))
              s (unfold new_run in ready.busy) (unfold new_run in ready.fresh)
              (unfold new_run in differ)
              (unfold new_run in replace_any-Replaced now id job.id s v fresh held busy))))
    where
      policy' : ((new_run now id job input s.limits).job.execution.overlap == "queue-latest") ≡ true
      policy' = unfold new_run in policy

      ready : IsReady job.id id (replace_previous now s (lookup job.id s.pending))
      ready = replace_any-IsReady now id job.id s v fresh held busy

      differ : (k : ℕ) → lookup job.id s.pending ≡ some k → ¬ (id ≡ k)
      differ k e p = fresh_pending v.slotted id fresh job.id (e ∙ ap some (sym p))

-- A stop that comes while the executor starts the run is not lost: as soon as the executor hands over
-- the process, its handle is told to stop.
pub stop_reaches_handle :
    (now later id handle : ℕ) (plan : PlanIdentity) (s : Service)
    → Launches (lookup id s.runs)
    → let (s', outcome) = stop now id s in
      (outcome ≡ stopped)
      × ((advance later id (executing plan) (launched handle) s').stop_calls
          ≡ handle ∷ s.stop_calls)
unfolding stop advance goes_to
stop_reaches_handle now later id handle plan s l = elim (Option-cases (lookup id s.runs)) [
  | inl e ↦ absurd (rw e at l)
  | inr (run, e) ↦ rw e (noted run (rw e at l))
]
  where
    noted :
        (run : RunState)
        → Launches (some run)
        → let (s', outcome) = stop_found now id s (some run) in
          (outcome ≡ stopped)
          × ((mark_running later id plan handle s' (lookup id s'.runs)).stop_calls
              ≡ handle ∷ s.stop_calls)
    noted run (q, p) =
        unfold stop_found in
        simp (q, p, lookup-insert_self)
          (unfold mark_running noted_stop publish_locked in simp q (refl, refl))
