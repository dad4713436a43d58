-- ===== src/RunService/Consistency/Promotion.antt =====
-- `promote`: how run_service.go fills the active slot of a job with its pending run.
use sync_bridge.Base.{
  ℕ, ◌≡◌, ap, ◌∙◌, ◌⊎◌, inl, inr, true, false, Option, none, some, ℤ, lookup, insert, delete, arith,
  nat_keyed, int_keyed, lookup-insert_self, lookup-insert_ne, lookup-insert-cases,
  lookup-delete-some, lookup-delete_ne, same-cases, Option-cases,
}
use sync_bridge.RunService.State.{RunState, Phase, compiling, Service}
use sync_bridge.RunService.Finish.{promote, promote_next}
use sync_bridge.RunService.Consistency.{Live, Waits, Present, Fits, IsSlotted, IsConsistent}
use sync_bridge.RunService.Consistency.Slots.{Waits-Live}
use sync_bridge.RunService.Consistency.Closing.{one_job_only}

-- The pending run of a job moves into the empty active slot.
module _ (s : Service) (v : IsSlotted s.runs s.active s.pending s.workers) where
  abbrev BehindElsewhere : ℤ → Type 0
  BehindElsewhere j =
      (k : ℤ) (x : ℕ) → ¬ (j ≡ k) → lookup k s.pending ≡ some x → Present (lookup k s.active)

  promote_alone :
      (j : ℤ)
      → BehindElsewhere j
      → s.panicked ≡ false
      → lookup j s.pending ≡ none
      → IsConsistent (promote j s)
  unfolding promote promote_next
  promote_alone j b safe e = rw e (record {
    slotted = v;
    behind = λ k x h. elim (same-cases j k) [
      | inl q ↦ absurd (ground (arith, e, h, ap (λ i. lookup i s.pending) q.1))
      | inr q ↦ b k x q.1 h
    ];
    safe = safe;
  })

  promote_taken :
      (j : ℤ) (next : ℕ)
      → BehindElsewhere j
      → s.panicked ≡ false
      → lookup j s.active ≡ none
      → lookup j s.pending ≡ some next
      → IsConsistent (promote_next j s (some next))
  unfolding promote_next
  promote_taken j next b safe free e = record {
    slotted = record {
      unique = v.unique;
      named = v.named;
      active_live = λ k x h. live k x (lookup-insert-cases j k next x s.active h);
      pending_waits = λ k x h. waits k x (lookup-delete-some j k x s.pending h);
      owned = λ x r h alive. holds x r (v.owned x r h alive);
      staffed = λ x ph h. fits x ph (lookup-insert-cases next x compiling ph s.workers h);
    };
    behind = λ k x h.
        let (n, h') = lookup-delete-some j k x s.pending h in
        rw (lookup-insert_ne j k next s.active n) (b k x n h');
    safe = found (lookup next s.runs) (v.pending_waits j next e).0;
  }
    where
      ready : Waits j (lookup next s.runs)
      ready = (v.pending_waits j next e).0

      keeps :
          (x : ℕ)
          → Present (lookup x s.workers)
          → Present (lookup x (insert next compiling s.workers))
      keeps x p = elim (same-cases next x) [
        | inl q ↦ rw (← q.1, lookup-insert_self next compiling s.workers) tt
        | inr q ↦ rw (lookup-insert_ne next x compiling s.workers q.1) p
      ]

      live :
          (k : ℤ) (x : ℕ)
          → ((j ≡ k) × (next ≡ x)) ⊎ ((¬ (j ≡ k)) × (lookup k s.active ≡ some x))
          → Live k (lookup x s.runs) × Present (lookup x (insert next compiling s.workers))
      live k x (inl (p, q)) = (
        rw (← p, ← q) (Waits-Live j (lookup next s.runs) ready),
        rw (← q, lookup-insert_self next compiling s.workers) tt,
      )
      live k x (inr (p, q)) = ((v.active_live k x q).0, keeps x (v.active_live k x q).1)

      waits :
          (k : ℤ) (x : ℕ)
          → (¬ (j ≡ k)) × (lookup k s.pending ≡ some x)
          → Waits k (lookup x s.runs) × (lookup x (insert next compiling s.workers) ≡ none)
      waits k x (n, h) =
          let w = v.pending_waits k x h in
          (
            w.0,
            lookup-insert_ne next x compiling s.workers (λ p. n (
                  one_job_only j k (lookup next s.runs) (Waits-Live j (lookup next s.runs) ready)
                    (rw p (Waits-Live k (lookup x s.runs) w.0))))
                ∙ w.1,
          )

      holds :
          (x : ℕ) (r : RunState)
          → (lookup r.snapshot.job_id s.active ≡ some x)
            ⊎ (lookup r.snapshot.job_id s.pending ≡ some x)
          → (lookup r.snapshot.job_id (insert j next s.active) ≡ some x)
            ⊎ (lookup r.snapshot.job_id (delete j s.pending) ≡ some x)
      holds x r o = elim (same-cases j r.snapshot.job_id) [
        | inl q ↦ inl (slot x r q.1 o)
        | inr q ↦
            rw
              (
                lookup-insert_ne j r.snapshot.job_id next s.active q.1,
                lookup-delete_ne j r.snapshot.job_id s.pending q.1,
              )
              o
      ]
        where
          slot :
              (x : ℕ) (r : RunState)
              → j ≡ r.snapshot.job_id
              → (lookup r.snapshot.job_id s.active ≡ some x)
                ⊎ (lookup r.snapshot.job_id s.pending ≡ some x)
              → lookup r.snapshot.job_id (insert j next s.active) ≡ some x
          slot x r p (inl h) = absurd (ground (arith, free, h, ap (λ i. lookup i s.active) p))
          slot x r p (inr h) =
              rw (← p, lookup-insert_self j next s.active)
                (ground (arith, e, h, ap (λ i. lookup i s.pending) p))

      early : (o : Option RunState) → Waits j o → Fits compiling o
      early none w = tt
      early (some r) w = inr (w.1, w.2)

      fits :
          (x : ℕ) (ph : Phase)
          → ((next ≡ x) × (compiling ≡ ph)) ⊎ ((¬ (next ≡ x)) × (lookup x s.workers ≡ some ph))
          → Fits ph (lookup x s.runs)
      fits x ph (inl (p, q)) = rw (← p, ← q) (early (lookup next s.runs) ready)
      fits x ph (inr (p, q)) = v.staffed x ph q

      found :
          (o : Option RunState) → Waits j o → elim o [ none ↦ true | some _ ↦ s.panicked ] ≡ false
      found none w = absurd w
      found (some r) w = safe

  -- Promotion after a run of the job has left its slot.
  pub promote-IsConsistent :
      (j : ℤ)
      → ((k : ℤ) (x : ℕ) → ¬ (j ≡ k) → lookup k s.pending ≡ some x → Present (lookup k s.active))
      → s.panicked ≡ false
      → (lookup j s.active ≡ none) ⊎ (lookup j s.pending ≡ none)
      → IsConsistent (promote j s)
  unfolding promote
  promote-IsConsistent j b safe free = elim (Option-cases (lookup j s.pending)) [
    | inl e ↦ promote_alone j b safe e
    | inr (next, e) ↦ rw e (promote_taken j next b safe (vacant free e) e)
  ]
    where
      vacant :
          {next : ℕ}
          → (lookup j s.active ≡ none) ⊎ (lookup j s.pending ≡ none)
          → lookup j s.pending ≡ some next
          → lookup j s.active ≡ none
      vacant (inl h) e = h
      vacant (inr h) e = absurd (cc (h, e))
