-- ===== src/RunService/Consistency/Slots.antt =====
-- How the slots of run_service.go survive the changes of `runs` and of the workers.
use mathlib.Core.Option
use sync_bridge.Base.{
  ℕ, ◌≡◌, refl, sym, ◌∙◌, ◌⊎◌, inl, inr, true, false, List, Option, none, some, ℤ, lookup, insert,
  arith, Unique, nat_keyed, int_keyed, lookup-insert_self, lookup-insert_ne, lookup-insert-cases,
  insert-Unique, insert-All, same-cases, ◌==◌,
}
use sync_bridge.RunService.State.{
  RunStatus, queued, RunState, Phase, compiling, installing, installed, launching, executing,
  waiting, finishing, is_terminal_run_status, is_queued, has_ended,
}
use sync_bridge.RunService.Retention.{trim_log}
use sync_bridge.RunService.Retention.Laws.{Runs, IsNamed, Kept, Ended}
use sync_bridge.RunService.Consistency.{Live, Waits, Fits, IsSlotted}

pub is_queued-live : (st : RunStatus) → is_queued st ≡ true → is_terminal_run_status st ≡ false
is_queued-live queued h = refl
is_queued-live _ h = ground arith

pub Waits-Live : (j : ℤ) (o : Option RunState) → Waits j o → Live j o
Waits-Live j none h = h
Waits-Live j (some r) h = (h.0, is_queued-live r.snapshot.status h.1)

not-Ended-Live : (j : ℤ) (o : Option RunState) → Ended o → Live j o → ⊥
not-Ended-Live j none e l = l
not-Ended-Live j (some r) e l = cc (sym e ∙ l.1)

Live-trim : (j : ℤ) (c : ℕ) (o : Option RunState) → Live j o → Live j (Option.map (trim_log c) o)
unfolding trim_log
Live-trim j c none l = l
Live-trim j c (some r) l = l

Waits-trim : (j : ℤ) (c : ℕ) (o : Option RunState) → Waits j o → Waits j (Option.map (trim_log c) o)
unfolding trim_log
Waits-trim j c none l = l
Waits-trim j c (some r) l = l

Fits-trim :
    (ph : Phase) (c : ℕ) (o : Option RunState) → Fits ph o → Fits ph (Option.map (trim_log c) o)
unfolding trim_log
Fits-trim ph c none f = f
Fits-trim compiling c (some r) f = f
Fits-trim (installing p) c (some r) f = f
Fits-trim (installed e p) c (some r) f = f
Fits-trim (launching p) c (some r) f = f
Fits-trim (executing p) c (some r) f = f
Fits-trim (waiting h) c (some r) f = f
Fits-trim (finishing res) c (some r) f = f

Fits-gone : (ph : Phase) (o : Option RunState) → Ended o → Fits ph o → Fits ph none
Fits-gone ph none e f = absurd e
Fits-gone (executing p) (some r) e f = absurd (cc (is_queued-live r.snapshot.status f.0, e))
Fits-gone (waiting h) (some r) e f = absurd (ground (arith, e, f.0))
Fits-gone compiling (some r) e f = tt
Fits-gone (installing p) (some r) e f = tt
Fits-gone (installed x p) (some r) e f = tt
Fits-gone (launching p) (some r) e f = tt
Fits-gone (finishing res) (some r) e f = f

Live-Kept : (j : ℤ) (c : ℕ) (o o' : Option RunState) → Kept c o o' → Live j o → Live j o'
Live-Kept j c o o' (inl e) l = rw e (Live-trim j c o l)
Live-Kept j c o o' (inr (e, ended)) l = absurd (not-Ended-Live j o ended l)

Waits-Kept : (j : ℤ) (c : ℕ) (o o' : Option RunState) → Kept c o o' → Waits j o → Waits j o'
Waits-Kept j c o o' (inl e) w = rw e (Waits-trim j c o w)
Waits-Kept j c o o' (inr (e, ended)) w = absurd (not-Ended-Live j o ended (Waits-Live j o w))

Fits-Kept : (ph : Phase) (c : ℕ) (o o' : Option RunState) → Kept c o o' → Fits ph o → Fits ph o'
Fits-Kept ph c o o' (inl e) f = rw e (Fits-trim ph c o f)
Fits-Kept ph c o o' (inr (e, ended)) f = rw e (Fits-gone ph o ended f)

-- A run that is found behind trimming was there before, but for its log.
Kept-some :
    (c : ℕ) (o : Option RunState) (r : RunState)
    → Kept c o (some r)
    → (r' : RunState) × (o ≡ some r') × (r.snapshot ≡ r'.snapshot)
unfolding trim_log
Kept-some c none r (inl e) = absurd (cc e)
Kept-some c (some r') r (inl e) = (r', refl, ground (arith, e))
Kept-some c o r (inr (e, ended)) = absurd (cc e)

module _ {runs : Runs} {active pending : List (ℤ × ℕ)} {workers : List (ℕ × Phase)}
    (v : IsSlotted runs active pending workers) where
  pub Kept-IsSlotted :
      (c : ℕ) (runs' : Runs)
      → Unique runs'
      → IsNamed runs'
      → ((id : ℕ) → Kept c (lookup id runs) (lookup id runs'))
      → IsSlotted runs' active pending workers
  Kept-IsSlotted c runs' u n k = record {
    unique = u;
    named = n;
    active_live = λ j id e. (
      Live-Kept j c (lookup id runs) (lookup id runs') (k id) (v.active_live j id e).0,
      (v.active_live j id e).1,
    );
    pending_waits = λ j id e. (
      Waits-Kept j c (lookup id runs) (lookup id runs') (k id) (v.pending_waits j id e).0,
      (v.pending_waits j id e).1,
    );
    owned = λ id r e live. back id r live (Kept-some c (lookup id runs) r (rw e at (k id)));
    staffed =
        λ id ph e. Fits-Kept ph c (lookup id runs) (lookup id runs') (k id) (v.staffed id ph e);
  }
    where
      back :
          (id : ℕ) (r : RunState)
          → has_ended r ≡ false
          → (r' : RunState) × (lookup id runs ≡ some r') × (r.snapshot ≡ r'.snapshot)
          → (lookup r.snapshot.job_id active ≡ some id)
            ⊎ (lookup r.snapshot.job_id pending ≡ some id)
      back id r live (r', found, same) = rw same (v.owned id r' found (rw same at live))

  -- A run takes the place of another, or comes in anew, without a change of the slots.
  pub insert-IsSlotted :
      (id : ℕ) (r : RunState)
      → r.snapshot.id ≡ id
      → ((j : ℤ) → lookup j active ≡ some id → Live j (some r))
      → ((j : ℤ) → lookup j pending ≡ some id → Waits j (some r))
      → (has_ended r ≡ false
          → (lookup r.snapshot.job_id active ≡ some id)
            ⊎ (lookup r.snapshot.job_id pending ≡ some id))
      → ((ph : Phase) → lookup id workers ≡ some ph → Fits ph (some r))
      → IsSlotted (insert id r runs) active pending workers
  insert-IsSlotted id r name on_active on_pending own fit = record {
    unique = insert-Unique id r runs v.unique;
    named = insert-All _ id r runs name v.named;
    active_live = λ j k e. (live j k e (same-cases id k), (v.active_live j k e).1);
    pending_waits = λ j k e. (waits j k e (same-cases id k), (v.pending_waits j k e).1);
    owned = λ k r' e alive. holds k r' alive (lookup-insert-cases id k r r' runs e);
    staffed = λ k ph e. fits k ph e (same-cases id k);
  }
    where
      live :
          (j : ℤ) (k : ℕ)
          → lookup j active ≡ some k
          → (((id == k) ≡ true) × (id ≡ k)) ⊎ (((id == k) ≡ false) × ¬ (id ≡ k))
          → Live j (lookup k (insert id r runs))
      live j k e (inl q) = rw (← q.1, lookup-insert_self id r runs) (on_active j (rw q.1 e))
      live j k e (inr q) = rw (lookup-insert_ne id k r runs q.1) (v.active_live j k e).0

      waits :
          (j : ℤ) (k : ℕ)
          → lookup j pending ≡ some k
          → (((id == k) ≡ true) × (id ≡ k)) ⊎ (((id == k) ≡ false) × ¬ (id ≡ k))
          → Waits j (lookup k (insert id r runs))
      waits j k e (inl q) = rw (← q.1, lookup-insert_self id r runs) (on_pending j (rw q.1 e))
      waits j k e (inr q) = rw (lookup-insert_ne id k r runs q.1) (v.pending_waits j k e).0

      fits :
          (k : ℕ) (ph : Phase)
          → lookup k workers ≡ some ph
          → (((id == k) ≡ true) × (id ≡ k)) ⊎ (((id == k) ≡ false) × ¬ (id ≡ k))
          → Fits ph (lookup k (insert id r runs))
      fits k ph e (inl q) = rw (← q.1, lookup-insert_self id r runs) (fit ph (rw q.1 e))
      fits k ph e (inr q) = rw (lookup-insert_ne id k r runs q.1) (v.staffed k ph e)

      holds :
          (k : ℕ) (r' : RunState)
          → has_ended r' ≡ false
          → ((id ≡ k) × (r ≡ r')) ⊎ ((¬ (id ≡ k)) × (lookup k runs ≡ some r'))
          → (lookup r'.snapshot.job_id active ≡ some k)
            ⊎ (lookup r'.snapshot.job_id pending ≡ some k)
      holds k r' alive (inl (p, q)) = rw (← p, ← q) (own (rw q alive))
      holds k r' alive (inr (p, q)) = v.owned k r' q alive
