-- ===== src/RunService/Consistency/Stopping.antt =====
-- `Stop` of run_service.go keeps the slots consistent.
use native.Mathlib.Omega.{arith}
use sync_bridge.Base.{
  ℕ, ◌≡◌, refl, inl, inr, true, false, Option, none, some, lookup, nat_keyed, Bool-cases,
  Option-cases,
}
use sync_bridge.RunService.State.{
  RunStatus, running, RunState, Phase, compiling, installing, installed, launching, executing,
  waiting, finishing, Service, is_queued,
}
use sync_bridge.RunService.Finish.{finish_locked}
use sync_bridge.RunService.Control.{killed_result, stop_started, stop_found, stop, noted_stop}
use sync_bridge.RunService.Consistency.{Fits, IsConsistent}
use sync_bridge.RunService.Consistency.Finishing.{
  MayEnd, finish_locked-IsConsistent, ticket_if_finished-IsConsistent,
}
use sync_bridge.RunService.Consistency.Touching.{touch-IsConsistent, SameCore}

-- The worker of a queued run that is not being started is not with the executor.
Fits-MayEnd :
    (ph : Phase) (run : RunState)
    → is_queued run.snapshot.status ≡ true
    → run.starting ≡ false
    → Fits ph (some run)
    → MayEnd ph
Fits-MayEnd (executing p) run q n f = cc (n, f.1)
Fits-MayEnd (waiting h) run q n f = ground (arith, q, f.0)
Fits-MayEnd compiling run q n f = tt
Fits-MayEnd (installing p) run q n f = tt
Fits-MayEnd (installed e p) run q n f = tt
Fits-MayEnd (launching p) run q n f = tt
Fits-MayEnd (finishing res) run q n f = tt

stop_started-IsConsistent :
    (s : Service) (st : RunStatus) (handle : Option ℕ)
    → IsConsistent s
    → IsConsistent (stop_started s st handle).0
unfolding stop_started
stop_started-IsConsistent s running (some h) v = record {
  slotted = v.slotted;
  behind = v.behind;
  safe = v.safe;
}
stop_started-IsConsistent s running none v = v
stop_started-IsConsistent s _ h v = v

noted_stop-SameCore : (run : RunState) → SameCore run (noted_stop run)
unfolding noted_stop
noted_stop-SameCore run = record {
  same_id = refl;
  same_job = refl;
  same_status = refl;
  same_starting = refl;
  same_handle = refl;
}

pub stop-IsConsistent : (now id : ℕ) (s : Service) → IsConsistent s → IsConsistent (stop now id s).0
unfolding stop stop_found
stop-IsConsistent now id s v = elim (Option-cases (lookup id s.runs)) [
  | inl e ↦ rw (e, stop_found) v
  | inr (run, e) ↦ elim (Bool-cases (is_queued run.snapshot.status)) [
    | inr q ↦ rw (e, stop_found, q) (stop_started-IsConsistent s run.snapshot.status run.handle v)
    | inl q ↦ elim (Bool-cases run.starting) [
      | inl p ↦
          rw (e, stop_found, q)
            (simp p (touch-IsConsistent s v id run (noted_stop run) e (noted_stop-SameCore run)))
      | inr p ↦
          rw (e, stop_found, q, p)
            (ticket_if_finished-IsConsistent (finish_locked now id killed_result s) (
              finish_locked-IsConsistent now id killed_result s v (inl refl)
                (λ ph h. Fits-MayEnd ph run q p (rw e at (v.slotted.staffed id ph h)))))
    ]
  ]
]
