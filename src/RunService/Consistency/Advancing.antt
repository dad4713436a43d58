-- ===== src/RunService/Consistency/Advancing.antt =====
-- `execute` of run_service.go keeps the slots consistent in each of its phases.
use sync_bridge.Base.{
  ℕ, ◌≡◌, refl, sym, ◌∙◌, inl, inr, true, false, Option, none, some, lookup, String, nat_keyed,
  Bool-cases, Option-cases, lookup-All, subst,
}
use sync_bridge.RunService.State.{
  RunResult, RunState, Phase, compiling, installing, installed, launching, executing, waiting,
  finishing, PlanIdentity, Service, is_queued,
}
use sync_bridge.RunService.Events.{publish_locked}
use sync_bridge.RunService.Finish.{finish, finish_locked, ticket_if_finished}
use sync_bridge.RunService.Worker.{
  Answer, compiled, wrapper_installed, proceeds, launched, launch_failed, exited, queued_run,
  is_queued_in, start_failure, goes_to, returns, while_queued, after_compile, after_install,
  begin_launch, running_run, mark_running, advance,
}
use sync_bridge.RunService.Consistency.{Present, Early, Launches, IsResult, Fits, IsConsistent}
use sync_bridge.RunService.Consistency.Slots.{is_queued-live}
use sync_bridge.RunService.Consistency.Finishing.{
  MayEnd, Gone, finish_locked-IsConsistent, finish_locked-Gone, ticket_if_finished-IsConsistent,
  ticket_if_finished-runs,
}
use sync_bridge.RunService.Consistency.Staffing.{
  goes_to-IsSlotted, returns-IsSlotted, restaff-IsSlotted,
}
use sync_bridge.RunService.Consistency.Steps.{IsAnswer}

pub goes_to-IsConsistent :
    (id : ℕ) (ph : Phase) (s : Service)
    → IsConsistent s
    → Present (lookup id s.workers)
    → Fits ph (lookup id s.runs)
    → IsConsistent (goes_to id ph s)
unfolding goes_to
goes_to-IsConsistent id ph s v here fit = record {
  slotted = goes_to-IsSlotted v.slotted id ph here fit;
  behind = v.behind;
  safe = v.safe;
}

returns-IsConsistent :
    (id : ℕ) (s : Service) → IsConsistent s → Gone (lookup id s.runs) → IsConsistent (returns id s)
unfolding returns
returns-IsConsistent id s v gone = record {
  slotted = returns-IsSlotted v.slotted id gone;
  behind = v.behind;
  safe = v.safe;
}

Early-Gone : (o : Option RunState) → Early o → queued_run o ≡ false → Gone o
unfolding queued_run
Early-Gone none e q = tt
Early-Gone (some r) (inl e) q = e
Early-Gone (some r) (inr e) q = absurd (cc (e.0, q))

module _ (id : ℕ) (s : Service) (v : IsConsistent s) (here : Present (lookup id s.workers)) where
  while_queued-IsConsistent :
      (ph : Phase)
      → Early (lookup id s.runs)
      → Fits ph (lookup id s.runs)
      → IsConsistent (while_queued id ph s)
  unfolding while_queued is_queued_in
  while_queued-IsConsistent ph early fit = elim (Bool-cases (queued_run (lookup id s.runs))) [
    | inl q ↦ rw q (goes_to-IsConsistent id ph s v here fit)
    | inr q ↦ rw q (returns-IsConsistent id s v (Early-Gone (lookup id s.runs) early q))
  ]

  begin_launch-IsConsistent :
      (plan : PlanIdentity)
      → Early (lookup id s.runs)
      → IsConsistent (begin_launch id plan s (lookup id s.runs))
  begin_launch-IsConsistent plan early = elim (Option-cases (lookup id s.runs)) [
    | inl e ↦ rw e (unfold begin_launch in returns-IsConsistent id s v (rw e tt))
    | inr (run, e) ↦ elim (Bool-cases (is_queued run.snapshot.status)) [
      | inl q ↦ rw e (
          unfold begin_launch goes_to in
          rw q (record {
            slotted =
                restaff-IsSlotted v.slotted id run (record run { starting = true }) (executing plan)
                  e (is_queued-live run.snapshot.status q)
                  (lookup-All _ s.runs id run v.slotted.named e) refl
                  (is_queued-live run.snapshot.status q) here (q, refl);
            behind = v.behind;
            safe = v.safe;
          }))
      | inr q ↦ rw e (
          unfold begin_launch in
          rw q (
            returns-IsConsistent id s v
              (rw e (Early-Gone (some run) (rw e at early) (unfold queued_run in q)))))
    ]
  ]

  launched-IsConsistent :
      (now handle : ℕ) (plan : PlanIdentity)
      → Launches (lookup id s.runs)
      → IsConsistent
          (goes_to id (waiting handle) (mark_running now id plan handle s (lookup id s.runs)))
  launched-IsConsistent now handle plan l = elim (Option-cases (lookup id s.runs)) [
    | inl e ↦ absurd (rw e at l)
    | inr (run, e) ↦ rw e (marked run e (rw e at l))
  ]
    where
      marked :
          (run : RunState)
          → lookup id s.runs ≡ some run
          → Launches (some run)
          → IsConsistent
              (goes_to id (waiting handle) (mark_running now id plan handle s (some run)))
      marked run e (q, p) =
          unfold mark_running publish_locked goes_to running_run in
          rw q (record {
            slotted =
                restaff-IsSlotted v.slotted id run (running_run now plan handle run)
                  (waiting handle) e (is_queued-live run.snapshot.status q)
                  (lookup-All _ s.runs id run v.slotted.named e) refl refl here (refl, refl);
            behind = v.behind;
            safe = v.safe;
          })

  reports-IsConsistent :
      (now : ℕ) (result : RunResult)
      → lookup id s.workers ≡ some (finishing result)
      → IsResult result
      → IsConsistent (returns id (finish now id result s))
  unfolding finish
  reports-IsConsistent now result e ok =
      returns-IsConsistent id (ticket_if_finished (finish_locked now id result s))
        (ticket_if_finished-IsConsistent (finish_locked now id result s)
          (finish_locked-IsConsistent now id result s v ok (λ ph h. may ph (sym e ∙ h))))
        (subst (λ r. Gone (lookup id r))
          (sym (ticket_if_finished-runs (finish_locked now id result s)))
          (finish_locked-Gone now id result s v ok))
    where
      may : (ph : Phase) → some (finishing result) ≡ some ph → MayEnd ph
      may (executing p) h = cc h
      may (waiting w) h = cc h
      may compiling h = tt
      may (installing p) h = tt
      may (installed x p) h = tt
      may (launching p) h = tt
      may (finishing res) h = tt

after_compile-Fits :
    (plan : PlanIdentity) (err : Option String) (o : Option RunState)
    → Early o
    → Fits (after_compile plan err) o
after_compile-Fits plan none o f = f
after_compile-Fits plan (some text) o f = f

after_install-Fits :
    (plan : PlanIdentity) (err : Option String) (o : Option RunState)
    → Early o
    → Fits (after_install plan err) o
after_install-Fits plan none o f = f
after_install-Fits plan (some text) o f = inl refl

-- Every answer that a phase gets keeps the slots consistent.
pub advance-IsConsistent :
    (now id : ℕ) (phase : Phase) (answer : Answer) (s : Service)
    → IsConsistent s
    → lookup id s.workers ≡ some phase
    → IsAnswer answer
    → IsConsistent (advance now id phase answer s)
unfolding advance
advance-IsConsistent now id compiling (compiled plan err) s v e ok =
    while_queued-IsConsistent id s v (rw e tt) (after_compile plan err)
      (v.slotted.staffed id compiling e)
      (after_compile-Fits plan err (lookup id s.runs) (v.slotted.staffed id compiling e))
advance-IsConsistent now id (installing plan) (wrapper_installed err) s v e ok =
    goes_to-IsConsistent id (installed err plan) s v (rw e tt)
      (v.slotted.staffed id (installing plan) e)
advance-IsConsistent now id (installed err plan) proceeds s v e ok =
    while_queued-IsConsistent id s v (rw e tt) (after_install plan err)
      (v.slotted.staffed id (installed err plan) e)
      (after_install-Fits plan err (lookup id s.runs) (v.slotted.staffed id (installed err plan) e))
advance-IsConsistent now id (launching plan) proceeds s v e ok =
    begin_launch-IsConsistent id s v (rw e tt) plan (v.slotted.staffed id (launching plan) e)
advance-IsConsistent now id (executing plan) (launched handle) s v e ok =
    launched-IsConsistent id s v (rw e tt) now handle plan (v.slotted.staffed id (executing plan) e)
advance-IsConsistent now id (executing plan) (launch_failed text) s v e ok =
    goes_to-IsConsistent id (finishing (start_failure text)) s v (rw e tt) (inl refl)
advance-IsConsistent now id (waiting handle) (exited result) s v e ok =
    goes_to-IsConsistent id (finishing result) s v (rw e tt) ok
advance-IsConsistent now id (finishing result) proceeds s v e ok =
    reports-IsConsistent id s v (rw e tt) now result e (v.slotted.staffed id (finishing result) e)
advance-IsConsistent now id _ _ s v e ok = v
