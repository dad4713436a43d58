-- ===== src/RunService/Consistency/Reserving.antt =====
-- `Start` of run_service.go puts a new run into the slots: skipped, queued or active.
use sync_bridge.Base.{
  ℕ, ◌≡◌, ap, ◌∙◌, ◌⊎◌, inl, inr, true, false, none, some, ℤ, lookup, insert, nat_keyed, int_keyed,
  lookup-insert_self, lookup-insert_ne, lookup-insert-cases, insert-Unique, insert-All, same-cases,
}
use sync_bridge.RunService.State.{RunState, Phase, compiling, Service, has_ended}
use sync_bridge.RunService.Consistency.{Live, Waits, Present, Fits, IsSlotted}
use sync_bridge.RunService.Consistency.Slots.{Waits-Live, insert-IsSlotted}

-- The ID of a new run is drawn at random: neither a run nor a worker has it.
pub record IsFresh (id : ℕ) (s : Service) : Type 0 where
  pub no_run : lookup id s.runs ≡ none
  pub no_worker : lookup id s.workers ≡ none

module _ {s : Service} (v : IsSlotted s.runs s.active s.pending s.workers) (id : ℕ)
    (fresh : IsFresh id s) where
  fresh_active : (j : ℤ) → lookup j s.active ≡ some id → ⊥
  fresh_active j e = rw fresh.no_run at (v.active_live j id e).0

  pub fresh_pending : (j : ℤ) → lookup j s.pending ≡ some id → ⊥
  fresh_pending j e = rw fresh.no_run at (v.pending_waits j id e).0

  -- A run that has ended at once.
  pub skip-IsSlotted :
      (r : RunState)
      → r.snapshot.id ≡ id
      → has_ended r ≡ true
      → IsSlotted (insert id r s.runs) s.active s.pending s.workers
  skip-IsSlotted r name ended =
      insert-IsSlotted v id r name (λ j e. absurd (fresh_active j e))
        (λ j e. absurd (fresh_pending j e)) (λ alive. absurd (cc (ended, alive)))
        (λ ph e. absurd (cc (fresh.no_worker, e)))

  module _ (r : RunState) (name : r.snapshot.id ≡ id)
      (waits : Waits r.snapshot.job_id (some r)) where
    apart : (k : ℕ) (j : ℤ) → Live j (lookup k s.runs) → ¬ (id ≡ k)
    apart k j l p = rw (← p, fresh.no_run) at l

    keeps_Live : (j : ℤ) (k : ℕ) → Live j (lookup k s.runs) → Live j (lookup k (insert id r s.runs))
    keeps_Live j k l = rw (lookup-insert_ne id k r s.runs (apart k j l)) l

    keeps_Waits :
        (j : ℤ) (k : ℕ) → Waits j (lookup k s.runs) → Waits j (lookup k (insert id r s.runs))
    keeps_Waits j k w =
        rw (lookup-insert_ne id k r s.runs (apart k j (Waits-Live j (lookup k s.runs) w))) w

    keeps_Fits :
        (k : ℕ) (ph : Phase)
        → lookup k s.workers ≡ some ph
        → Fits ph (lookup k (insert id r s.runs))
    keeps_Fits k ph e = elim (same-cases id k) [
      | inl q ↦ absurd (
          let none_here : lookup k s.workers ≡ none = rw q.1 at fresh.no_worker in
          cc (none_here, e))
      | inr q ↦ rw (lookup-insert_ne id k r s.runs q.1) (v.staffed k ph e)
    ]

    -- A run in the pending slot, which is empty.
    pub enqueue-IsSlotted :
        lookup r.snapshot.job_id s.pending ≡ none
        → IsSlotted (insert id r s.runs) s.active (insert r.snapshot.job_id id s.pending) s.workers
    enqueue-IsSlotted free = record {
      unique = insert-Unique id r s.runs v.unique;
      named = insert-All _ id r s.runs name v.named;
      active_live = λ j k e. (keeps_Live j k (v.active_live j k e).0, (v.active_live j k e).1);
      pending_waits = λ j k e. queue j k (lookup-insert-cases r.snapshot.job_id j id k s.pending e);
      owned = λ k r' e alive. holds k r' alive (lookup-insert-cases id k r r' s.runs e);
      staffed = keeps_Fits;
    }
      where
        queue :
            (j : ℤ) (k : ℕ)
            → ((r.snapshot.job_id ≡ j) × (id ≡ k))
              ⊎ ((¬ (r.snapshot.job_id ≡ j)) × (lookup j s.pending ≡ some k))
            → Waits j (lookup k (insert id r s.runs)) × (lookup k s.workers ≡ none)
        queue j k (inl (p, q)) = (
          rw (← q, lookup-insert_self id r s.runs) (p, waits.1, waits.2),
          rw (← q) fresh.no_worker,
        )
        queue j k (inr (p, q)) =
            (keeps_Waits j k (v.pending_waits j k q).0, (v.pending_waits j k q).1)

        old :
            (k : ℕ) (r' : RunState)
            → (lookup r'.snapshot.job_id s.active ≡ some k)
              ⊎ (lookup r'.snapshot.job_id s.pending ≡ some k)
            → (lookup r'.snapshot.job_id s.active ≡ some k)
              ⊎ (lookup r'.snapshot.job_id (insert r.snapshot.job_id id s.pending) ≡ some k)
        old k r' (inl e) = inl e
        old k r' (inr e) = elim (same-cases r.snapshot.job_id r'.snapshot.job_id) [
          | inl q ↦ absurd (cc (free, ap (λ j. lookup j s.pending) q.1, e))
          | inr q ↦ inr (lookup-insert_ne r.snapshot.job_id r'.snapshot.job_id id s.pending q.1 ∙ e)
        ]

        holds :
            (k : ℕ) (r' : RunState)
            → has_ended r' ≡ false
            → ((id ≡ k) × (r ≡ r')) ⊎ ((¬ (id ≡ k)) × (lookup k s.runs ≡ some r'))
            → (lookup r'.snapshot.job_id s.active ≡ some k)
              ⊎ (lookup r'.snapshot.job_id (insert r.snapshot.job_id id s.pending) ≡ some k)
        holds k r' alive (inl (p, q)) =
            rw (← p, ← q) (inr (lookup-insert_self r.snapshot.job_id id s.pending))
        holds k r' alive (inr (p, q)) = old k r' (v.owned k r' q alive)

    -- A run in the active slot, which is empty, with its worker.
    pub activate-IsSlotted :
        lookup r.snapshot.job_id s.active ≡ none
        → IsSlotted
            (insert id r s.runs)
            (insert r.snapshot.job_id id s.active)
            s.pending
            (insert id compiling s.workers)
    activate-IsSlotted free = record {
      unique = insert-Unique id r s.runs v.unique;
      named = insert-All _ id r s.runs name v.named;
      active_live = λ j k e. active j k (lookup-insert-cases r.snapshot.job_id j id k s.active e);
      pending_waits = λ j k e.
          let (w, idle) = v.pending_waits j k e in
          (
            keeps_Waits j k w,
            lookup-insert_ne id k compiling s.workers (apart k j (Waits-Live j (lookup k s.runs) w))
                ∙ idle,
          );
      owned = λ k r' e alive. holds k r' alive (lookup-insert-cases id k r r' s.runs e);
      staffed = λ k ph e. fits k ph (lookup-insert-cases id k compiling ph s.workers e);
    }
      where
        active :
            (j : ℤ) (k : ℕ)
            → ((r.snapshot.job_id ≡ j) × (id ≡ k))
              ⊎ ((¬ (r.snapshot.job_id ≡ j)) × (lookup j s.active ≡ some k))
            → Live j (lookup k (insert id r s.runs))
              × Present (lookup k (insert id compiling s.workers))
        active j k (inl (p, q)) = (
          rw (← q, lookup-insert_self id r s.runs)
              (p, (Waits-Live r.snapshot.job_id (some r) waits).1),
          rw (← q, lookup-insert_self id compiling s.workers) tt,
        )
        active j k (inr (p, q)) =
            let (l, here) = v.active_live j k q in
            (keeps_Live j k l, rw (lookup-insert_ne id k compiling s.workers (apart k j l)) here)

        old :
            (k : ℕ) (r' : RunState)
            → (lookup r'.snapshot.job_id s.active ≡ some k)
              ⊎ (lookup r'.snapshot.job_id s.pending ≡ some k)
            → (lookup r'.snapshot.job_id (insert r.snapshot.job_id id s.active) ≡ some k)
              ⊎ (lookup r'.snapshot.job_id s.pending ≡ some k)
        old k r' (inr e) = inr e
        old k r' (inl e) = elim (same-cases r.snapshot.job_id r'.snapshot.job_id) [
          | inl q ↦ absurd (cc (free, ap (λ j. lookup j s.active) q.1, e))
          | inr q ↦ inl (lookup-insert_ne r.snapshot.job_id r'.snapshot.job_id id s.active q.1 ∙ e)
        ]

        holds :
            (k : ℕ) (r' : RunState)
            → has_ended r' ≡ false
            → ((id ≡ k) × (r ≡ r')) ⊎ ((¬ (id ≡ k)) × (lookup k s.runs ≡ some r'))
            → (lookup r'.snapshot.job_id (insert r.snapshot.job_id id s.active) ≡ some k)
              ⊎ (lookup r'.snapshot.job_id s.pending ≡ some k)
        holds k r' alive (inl (p, q)) =
            rw (← p, ← q) (inl (lookup-insert_self r.snapshot.job_id id s.active))
        holds k r' alive (inr (p, q)) = old k r' (v.owned k r' q alive)

        fits :
            (k : ℕ) (ph : Phase)
            → ((id ≡ k) × (compiling ≡ ph)) ⊎ ((¬ (id ≡ k)) × (lookup k s.workers ≡ some ph))
            → Fits ph (lookup k (insert id r s.runs))
        fits k ph (inl (p, q)) =
            rw (← p, ← q, lookup-insert_self id r s.runs) (inr (waits.1, waits.2))
        fits k ph (inr (p, q)) = keeps_Fits k ph q
