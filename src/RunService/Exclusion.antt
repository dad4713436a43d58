-- ===== src/RunService/Exclusion.antt =====
-- Overlap in run_service.go: what a job's runs may do at the same time, in any interleaving.
use sync_bridge.Base.{
  ℕ, ◌≡◌, ap, ◌⊎◌, inl, inr, true, false, none, some, lookup, nat_keyed, int_keyed,
}
use native.Mathlib.Omega.{arith}
use sync_bridge.LogBuffer.{LogLimits}
use sync_bridge.RunService.State.{
  running, RunState, Service, has_ended, is_queued, is_terminal_run_status,
}
use sync_bridge.RunService.Consistency.{Present, Waits, IsConsistent}
use sync_bridge.RunService.Consistency.Steps.{Reach}
use sync_bridge.RunService.Consistency.Reachable.{Reach-IsConsistent}

-- The run waits in the pending slot of its job: queued, not being started, with no worker.
abbrev pub IsPending : Service → ℕ → RunState → Type 0
IsPending s id r =
    (lookup r.snapshot.job_id s.pending ≡ some id)
    × (is_queued r.snapshot.status ≡ true)
    × (r.starting ≡ false)
    × (lookup id s.workers ≡ none)

-- The run holds the active slot of its job, and a worker has it.
abbrev pub IsActive : Service → ℕ → RunState → Type 0
IsActive s id r = (lookup r.snapshot.job_id s.active ≡ some id) × Present (lookup id s.workers)

-- The run is with the executor: being started, or running.
abbrev pub WithExecutor : RunState → Type 0
WithExecutor r =
    ((is_queued r.snapshot.status ≡ true) × (r.starting ≡ true)) ⊎ (r.snapshot.status ≡ running)

module _ {limits : LogLimits} {s : Service} (reach : Reach limits s) where
  -- A run that has not ended holds the active slot of its job with a worker, or waits in the pending
  -- slot behind an active run.
  pub live_in_slot :
      (id : ℕ) (r : RunState)
      → lookup id s.runs ≡ some r
      → has_ended r ≡ false
      → IsActive s id r ⊎ (IsPending s id r × Present (lookup r.snapshot.job_id s.active))
  live_in_slot id r e alive = slot (v.slotted.owned id r e alive)
    where
      v : IsConsistent s
      v = Reach-IsConsistent reach

      slot :
          (lookup r.snapshot.job_id s.active ≡ some id)
            ⊎ (lookup r.snapshot.job_id s.pending ≡ some id)
          → IsActive s id r ⊎ (IsPending s id r × Present (lookup r.snapshot.job_id s.active))
      slot (inl a) = inl (a, (v.slotted.active_live r.snapshot.job_id id a).1)
      slot (inr p) =
          let (w, idle) = v.slotted.pending_waits r.snapshot.job_id id p in
          let waits : Waits r.snapshot.job_id (some r) = rw e at w in
          inr ((p, waits.1, waits.2, idle), v.behind r.snapshot.job_id id p)

  -- Of two runs of one job that have not ended, one is active and the other one is pending.
  pub two_unended :
      (a b : ℕ) (ra rb : RunState)
      → ¬ (a ≡ b)
      → lookup a s.runs ≡ some ra
      → lookup b s.runs ≡ some rb
      → has_ended ra ≡ false
      → has_ended rb ≡ false
      → ra.snapshot.job_id ≡ rb.snapshot.job_id
      → (IsActive s a ra × IsPending s b rb) ⊎ (IsPending s a ra × IsActive s b rb)
  two_unended a b ra rb n ea eb la lb same =
      pair (live_in_slot a ra ea la) (live_in_slot b rb eb lb)
    where
      pair :
          IsActive s a ra ⊎ (IsPending s a ra × Present (lookup ra.snapshot.job_id s.active))
          → IsActive s b rb ⊎ (IsPending s b rb × Present (lookup rb.snapshot.job_id s.active))
          → (IsActive s a ra × IsPending s b rb) ⊎ (IsPending s a ra × IsActive s b rb)
      pair (inl x) (inr y) = inl (x, y.0)
      pair (inr x) (inl y) = inr (x.0, y)
      pair (inl x) (inl y) = absurd (n (ground (arith, x.0, y.0, ap (λ j. lookup j s.active) same)))
      pair (inr x) (inr y) =
          absurd (n (ground (arith, x.0.0, y.0.0, ap (λ j. lookup j s.pending) same)))

  WithExecutor-live : (r : RunState) → WithExecutor r → has_ended r ≡ false
  WithExecutor-live r (inl (q, p)) = ground (arith, q)
  WithExecutor-live r (inr e) = ap is_terminal_run_status e

  -- No two runs of one job are with the executor at the same time.
  pub executor_exclusive :
      (a b : ℕ) (ra rb : RunState)
      → lookup a s.runs ≡ some ra
      → lookup b s.runs ≡ some rb
      → WithExecutor ra
      → WithExecutor rb
      → ra.snapshot.job_id ≡ rb.snapshot.job_id
      → a ≡ b
  executor_exclusive a b ra rb ea eb xa xb same =
      same_slot (live_in_slot a ra ea (WithExecutor-live ra xa))
        (live_in_slot b rb eb (WithExecutor-live rb xb))
    where
      not_pending : (id : ℕ) (r : RunState) → WithExecutor r → IsPending s id r → ⊥
      not_pending id r (inl (q, p)) w = cc (p, w.2)
      not_pending id r (inr e) w = ground (arith, e, w.1)

      same_slot :
          IsActive s a ra ⊎ (IsPending s a ra × Present (lookup ra.snapshot.job_id s.active))
          → IsActive s b rb ⊎ (IsPending s b rb × Present (lookup rb.snapshot.job_id s.active))
          → a ≡ b
      same_slot (inl x) (inl y) = ground (arith, x.0, y.0, ap (λ j. lookup j s.active) same)
      same_slot (inr x) y = absurd (not_pending a ra xa x.0)
      same_slot x (inr y) = absurd (not_pending b rb xb y.0)

  -- The service never follows a nil run when it promotes a pending one.
  pub never_panics : s.panicked ≡ false
  never_panics = (Reach-IsConsistent reach).safe
