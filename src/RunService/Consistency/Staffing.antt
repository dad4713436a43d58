-- ===== src/RunService/Consistency/Staffing.antt =====
-- How the slots of run_service.go survive the changes of the workers.
use sync_bridge.Base.{
  ℕ, ◌≡◌, sym, ◌∙◌, ◌⊎◌, inl, inr, true, false, List, Option, none, some, ℤ, lookup, insert, delete,
  nat_keyed, int_keyed, lookup-insert_self, lookup-insert_ne, lookup-insert-cases,
  lookup-delete-some, lookup-delete_ne, lookup-delete_self, insert-Unique, insert-All, same-cases,
  ◌==◌,
}
use sync_bridge.RunService.State.{RunState, Phase, has_ended}
use sync_bridge.RunService.Retention.Laws.{Runs}
use sync_bridge.RunService.Consistency.{Live, Waits, Present, Fits, IsSlotted}
use sync_bridge.RunService.Consistency.Finishing.{Gone}

abbrev pub Workers : Type 0
Workers = List (ℕ × Phase)

insert-Present :
    (id k : ℕ) (ph : Phase) (w : Workers)
    → Present (lookup k w)
    → Present (lookup k (insert id ph w))
insert-Present id k ph w p = elim (same-cases id k) [
  | inl q ↦ rw (← q.1, lookup-insert_self id ph w) tt
  | inr q ↦ rw (lookup-insert_ne id k ph w q.1) p
]

-- A worker other than a given one, which is there, is none: so it is another.
insert-none :
    (id k : ℕ) (ph : Phase) (w : Workers)
    → Present (lookup id w)
    → lookup k w ≡ none
    → lookup k (insert id ph w) ≡ none
insert-none id k ph w p e = elim (same-cases id k) [
  | inl q ↦ absurd (rw (q.1, e) at p)
  | inr q ↦ rw (lookup-insert_ne id k ph w q.1) e
]

module _ {runs : Runs} {active pending : List (ℤ × ℕ)} {workers : Workers}
    (v : IsSlotted runs active pending workers) (id : ℕ) where
  pub goes_to-IsSlotted :
      (ph : Phase)
      → Present (lookup id workers)
      → Fits ph (lookup id runs)
      → IsSlotted runs active pending (insert id ph workers)
  goes_to-IsSlotted ph here fit = record {
    unique = v.unique;
    named = v.named;
    active_live =
        λ j k e. ((v.active_live j k e).0, insert-Present id k ph workers (v.active_live j k e).1);
    pending_waits = λ j k e.
        ((v.pending_waits j k e).0, insert-none id k ph workers here (v.pending_waits j k e).1);
    owned = v.owned;
    staffed = λ k ph' e. fits k ph' (lookup-insert-cases id k ph ph' workers e);
  }
    where
      fits :
          (k : ℕ) (ph' : Phase)
          → ((id ≡ k) × (ph ≡ ph')) ⊎ ((¬ (id ≡ k)) × (lookup k workers ≡ some ph'))
          → Fits ph' (lookup k runs)
      fits k ph' (inl (p, q)) = rw (← p, ← q) fit
      fits k ph' (inr (p, q)) = v.staffed k ph' q

  pub returns-IsSlotted : Gone (lookup id runs) → IsSlotted runs active pending (delete id workers)
  returns-IsSlotted gone = record {
    unique = v.unique;
    named = v.named;
    active_live = λ j k e.
        let (live, here) = v.active_live j k e in
        (
          live,
          rw (lookup-delete_ne id k workers (λ p. dead j (lookup id runs) gone (rw p live))) here,
        );
    pending_waits = λ j k e.
        let (waits, idle) = v.pending_waits j k e in (waits, away k (same-cases id k) idle);
    owned = v.owned;
    staffed = λ k ph e. v.staffed k ph (lookup-delete-some id k ph workers e).1;
  }
    where
      dead : (j : ℤ) (o : Option RunState) → Gone o → Live j o → ⊥
      dead j none g l = l
      dead j (some r) g l = cc (sym g ∙ l.1)

      away :
          (k : ℕ)
          → (((id == k) ≡ true) × (id ≡ k)) ⊎ (((id == k) ≡ false) × ¬ (id ≡ k))
          → lookup k workers ≡ none
          → lookup k (delete id workers) ≡ none
      away k (inl q) e = rw (← q.1) (lookup-delete_self id workers)
      away k (inr q) e = rw (lookup-delete_ne id k workers q.1) e

  -- A live run and its worker change together; the run stays live, under its ID and its job.
  pub restaff-IsSlotted :
      (old r : RunState) (ph : Phase)
      → lookup id runs ≡ some old
      → has_ended old ≡ false
      → r.snapshot.id ≡ id
      → r.snapshot.job_id ≡ old.snapshot.job_id
      → has_ended r ≡ false
      → Present (lookup id workers)
      → Fits ph (some r)
      → IsSlotted (insert id r runs) active pending (insert id ph workers)
  restaff-IsSlotted old r ph found alive name job alive' here fit = record {
    unique = insert-Unique id r runs v.unique;
    named = insert-All _ id r runs name v.named;
    active_live = λ j k e.
        (live j k e (same-cases id k), insert-Present id k ph workers (v.active_live j k e).1);
    pending_waits = λ j k e. (
      waits j k (v.pending_waits j k e) (same-cases id k),
      insert-none id k ph workers here (v.pending_waits j k e).1,
    );
    owned = λ k r' e live'. holds k r' live' (lookup-insert-cases id k r r' runs e);
    staffed = λ k ph' e. fits k ph' (lookup-insert-cases id k ph ph' workers e) (same-cases id k);
  }
    where
      live :
          (j : ℤ) (k : ℕ)
          → lookup j active ≡ some k
          → (((id == k) ≡ true) × (id ≡ k)) ⊎ (((id == k) ≡ false) × ¬ (id ≡ k))
          → Live j (lookup k (insert id r runs))
      live j k e (inl q) =
          let before : Live j (some old) = rw (← q.1, found) at (v.active_live j k e).0 in
          rw (← q.1, lookup-insert_self id r runs) (job ∙ before.0, alive')
      live j k e (inr q) = rw (lookup-insert_ne id k r runs q.1) (v.active_live j k e).0

      waits :
          (j : ℤ) (k : ℕ)
          → Waits j (lookup k runs) × (lookup k workers ≡ none)
          → (((id == k) ≡ true) × (id ≡ k)) ⊎ (((id == k) ≡ false) × ¬ (id ≡ k))
          → Waits j (lookup k (insert id r runs))
      waits j k w (inl q) = absurd (rw (q.1, w.1) at here)
      waits j k w (inr q) = rw (lookup-insert_ne id k r runs q.1) w.0

      holds :
          (k : ℕ) (r' : RunState)
          → has_ended r' ≡ false
          → ((id ≡ k) × (r ≡ r')) ⊎ ((¬ (id ≡ k)) × (lookup k runs ≡ some r'))
          → (lookup r'.snapshot.job_id active ≡ some k)
            ⊎ (lookup r'.snapshot.job_id pending ≡ some k)
      holds k r' live' (inl (p, q)) = rw (← p, ← q, job) (v.owned id old found alive)
      holds k r' live' (inr (p, q)) = v.owned k r' q live'

      fits :
          (k : ℕ) (ph' : Phase)
          → ((id ≡ k) × (ph ≡ ph')) ⊎ ((¬ (id ≡ k)) × (lookup k workers ≡ some ph'))
          → (((id == k) ≡ true) × (id ≡ k)) ⊎ (((id == k) ≡ false) × ¬ (id ≡ k))
          → Fits ph' (lookup k (insert id r runs))
      fits k ph' (inl (p, q)) _ = rw (← p, ← q, lookup-insert_self id r runs) fit
      fits k ph' (inr (p, q)) _ = rw (lookup-insert_ne id k r runs p) (v.staffed k ph' q)
