-- ===== src/RunService/Consistency/Starting.antt =====
-- `Start` of run_service.go keeps the slots consistent, whatever slot is taken.
use sync_bridge.Base.{
  ℕ, ◌≡◌, refl, subst, sym, ap, ◌∙◌, ◌⊎◌, inl, inr, true, false, not, ◌&&◌, List, Option, none,
  some, ℤ, lookup, insert, nat_keyed, int_keyed, string_keyed, ◌==◌, Bool-cases, Option-cases,
  same-cases, lookup-insert_self, lookup-insert_ne,
}
use sync_bridge.Job.{Job}
use sync_bridge.RunService.State.{StartRunInput, RunState, Service}
use sync_bridge.RunService.Events.{publish_locked}
use sync_bridge.RunService.Finish.{take_ticket}
use sync_bridge.RunService.Start.{
  new_run, skipped_run, skip_run, replace_previous, enqueue_run, activate_run, reserve_by, reserve,
  start_with_id, start,
}
use sync_bridge.RunService.Consistency.{Waits, Present, Behind, IsConsistent}
use sync_bridge.RunService.Consistency.Reserving.{
  IsFresh, skip-IsSlotted, enqueue-IsSlotted, activate-IsSlotted,
}
use sync_bridge.RunService.Consistency.Replacing.{IsReady, replace_any-IsReady}
use sync_bridge.RunService.Consistency.Steps.{IsFreshDraw}

insert-Present :
    (j k : ℤ) (id : ℕ) (m : List (ℤ × ℕ))
    → Present (lookup k m)
    → Present (lookup k (insert j id m))
insert-Present j k id m p = elim (same-cases j k) [
  | inl q ↦ rw (← q.1, lookup-insert_self j id m) tt
  | inr q ↦ rw (lookup-insert_ne j k id m q.1) p
]

module _ (run : RunState) (waits : Waits run.snapshot.job_id (some run)) where
  enqueue_run-IsConsistent :
      (s : Service)
      → IsReady run.snapshot.job_id run.snapshot.id s
      → IsConsistent (enqueue_run run s)
  unfolding enqueue_run publish_locked
  enqueue_run-IsConsistent s r = record {
    slotted =
        enqueue-IsSlotted r.consistent.slotted run.snapshot.id r.fresh run refl waits r.vacant;
    behind = behind;
    safe = r.consistent.safe;
  }
    where
      behind : Behind s.active (insert run.snapshot.job_id run.snapshot.id s.pending)
      behind k x e = elim (same-cases run.snapshot.job_id k) [
        | inl q ↦ rw q.1 at r.busy
        | inr q ↦
            r.consistent.behind k x
              (sym (lookup-insert_ne run.snapshot.job_id k run.snapshot.id s.pending q.1) ∙ e)
      ]

  module _ (now : ℕ) (s : Service) (v : IsConsistent s) (fresh : IsFresh run.snapshot.id s) where
    activate_run-IsConsistent :
        lookup run.snapshot.job_id s.active ≡ none → IsConsistent (activate_run run s)
    unfolding activate_run publish_locked
    activate_run-IsConsistent free = record {
      slotted = activate-IsSlotted v.slotted run.snapshot.id fresh run refl waits free;
      behind =
          λ k x e. insert-Present run.snapshot.job_id k run.snapshot.id s.active (v.behind k x e);
      safe = v.safe;
    }

    skip_run-IsConsistent : IsConsistent (skip_run now run s)
    unfolding skip_run publish_locked take_ticket skipped_run
    skip_run-IsConsistent = record {
      slotted = skip-IsSlotted v.slotted run.snapshot.id fresh (skipped_run now run) refl refl;
      behind = v.behind;
      safe = v.safe;
    }

    pub reserve-IsConsistent : run.job.id ≡ run.snapshot.job_id → IsConsistent (reserve now run s).0
    unfolding reserve
    reserve-IsConsistent same = elim (Option-cases (lookup run.job.id s.active)) [
      | inl e ↦ rw e (
          unfold reserve_by in
          activate_run-IsConsistent (ap (λ j. lookup j s.active) (sym same) ∙ e))
      | inr (held, e) ↦
          rw e (taken held e (Bool-cases (run.job.execution.overlap == "queue-latest")))
    ]
      where
        taken :
            (held : ℕ)
            → lookup run.job.id s.active ≡ some held
            → ((run.job.execution.overlap == "queue-latest") ≡ true)
              ⊎ ((run.job.execution.overlap == "queue-latest") ≡ false)
            → IsConsistent (reserve_by now run s (some held)).0
        taken held e (inr q) = unfold reserve_by in rw q skip_run-IsConsistent
        taken held e (inl q) =
            unfold reserve_by in
            rw q (
              enqueue_run-IsConsistent (replace_previous now s (lookup run.job.id s.pending)) (
                subst
                  (λ j.
                    IsReady run.snapshot.job_id run.snapshot.id
                      (replace_previous now s (lookup j s.pending)))
                  (sym same)
                  (replace_any-IsReady now run.snapshot.id run.snapshot.job_id s v fresh held
                    (ap (λ j. lookup j s.active) (sym same) ∙ e))))

pub start-IsConsistent :
    (now : ℕ) (input : StartRunInput) (found : Option Job) (drawn : Option ℕ) (s : Service)
    → IsConsistent s
    → IsFreshDraw drawn s
    → IsConsistent (start now input found drawn s).0
unfolding start
start-IsConsistent now input none drawn s v fresh = v
start-IsConsistent now input (some job) drawn s v fresh =
    elim (Bool-cases (not (input.revision == 0) && not (input.revision == job.revision))) [
      | inl q ↦ rw q v
      | inr q ↦ rw q (identified drawn fresh)
    ]
  where
    identified : (o : Option ℕ) → IsFreshDraw o s → IsConsistent (start_with_id now input job s o).0
    identified none f = unfold start_with_id in v
    identified (some id) f =
        unfold start_with_id in
        reserve-IsConsistent (new_run now id job input s.limits)
          (unfold new_run in (refl, refl, refl)) now s v (unfold new_run in f)
          (unfold new_run in refl)
