-- ===== src/RunService/Consistency/Closing.antt =====
-- `close_run`: how run_service.go empties the slots of a run that has ended.
use sync_bridge.Base.{
  ℕ, ◌≡◌, refl, sym, ap, ◌∙◌, ◌⊎◌, inl, inr, true, false, List, Option, none, some, ℤ, lookup,
  insert, delete, arith, nat_keyed, int_keyed, lookup-insert_self, lookup-insert_ne,
  lookup-insert-cases, lookup-delete-some, lookup-delete_ne, lookup-delete_self, insert-Unique,
  insert-All, same-cases, Option-cases, ◌==◌,
}
use sync_bridge.RunService.State.{RunState, Phase, has_ended}
use sync_bridge.RunService.Finish.{release}
use sync_bridge.RunService.Retention.Laws.{Runs}
use sync_bridge.RunService.Consistency.{Live, Fits, IsSlotted}
use sync_bridge.RunService.Consistency.Slots.{Waits-Live}

abbrev pub Slot : Type 0
Slot = List (ℤ × ℕ)

-- What a read of the slots finds behind `release`.
pub lookup-release-some :
    (j k : ℤ) (id x : ℕ) (m : Slot)
    → lookup k (release j id m) ≡ some x
    → (lookup k m ≡ some x) × ¬ ((j ≡ k) × (x ≡ id))
unfolding release
lookup-release-some j k id x m e = elim (Option-cases (lookup j m)) [
  | inl q ↦
      (rw (q, release) at e, λ p. ground (arith, q, rw (q, release) at e, ap (λ i. lookup i m) p.0))
  | inr (h, q) ↦ elim (same-cases h id) [
    | inl t ↦
        let e' : lookup k (delete j m) ≡ some x = rw (q, release, t.0) at e in
        let found = lookup-delete-some j k x m e' in (found.1, λ p. found.0 p.0)
    | inr t ↦
        let e' : lookup k m ≡ some x = rw (q, release, t.0) at e in
        (e', λ p. t.1 (ground (arith, q, e', ap (λ i. lookup i m) p.0, p.1)))
  ]
]

pub lookup-release_ne :
    (j k : ℤ) (id x : ℕ) (m : Slot)
    → lookup k m ≡ some x
    → ¬ (x ≡ id)
    → lookup k (release j id m) ≡ some x
unfolding release
lookup-release_ne j k id x m e n = elim (Option-cases (lookup j m)) [
  | inl q ↦ rw (q, release) e
  | inr (h, q) ↦ elim (same-cases h id) [
    | inl t ↦
        rw (q, release, t.0)
          (lookup-delete_ne j k m (λ p. n (ground (arith, q, e, t.1, ap (λ i. lookup i m) p))) ∙ e)
    | inr t ↦ rw (q, release, t.0) e
  ]
]

-- The slot of another job.
pub lookup-release_job :
    (j k : ℤ) (id : ℕ) (m : Slot) → ¬ (j ≡ k) → lookup k (release j id m) ≡ lookup k m
unfolding release
lookup-release_job j k id m n = elim (Option-cases (lookup j m)) [
  | inl q ↦ rw (q, release) refl
  | inr (h, q) ↦ elim (same-cases h id) [
    | inl t ↦ rw (q, release, t.0) (lookup-delete_ne j k m n)
    | inr t ↦ rw (q, release, t.0) refl
  ]
]

pub lookup-release_self :
    (j : ℤ) (id : ℕ) (m : Slot) → lookup j m ≡ some id → lookup j (release j id m) ≡ none
unfolding release
lookup-release_self j id m e = elim (same-cases id id) [
  | inl t ↦ rw (e, release, t.0) (lookup-delete_self j m)
  | inr t ↦ absurd (t.1 refl)
]

-- One run is not live under two jobs.
pub one_job_only : (j k : ℤ) (o : Option RunState) → Live j o → Live k o → j ≡ k
one_job_only j k none a b = absurd a
one_job_only j k (some r) a b = sym a.0 ∙ b.0

module _ {runs : Runs} {active pending : Slot} {workers : List (ℕ × Phase)}
    (v : IsSlotted runs active pending workers) where
  -- A live run ends and leaves its slots.
  pub close-IsSlotted :
      (j : ℤ) (id : ℕ) (done : RunState)
      → Live j (lookup id runs)
      → done.snapshot.id ≡ id
      → has_ended done ≡ true
      → ((ph : Phase) → lookup id workers ≡ some ph → Fits ph (some done))
      → IsSlotted (insert id done runs) (release j id active) (release j id pending) workers
  close-IsSlotted j id done live name ended fit = record {
    unique = insert-Unique id done runs v.unique;
    named = insert-All _ id done runs name v.named;
    active_live = λ k x e.
        let (e', n) = lookup-release-some j k id x active e in
        (
          rw
              (lookup-insert_ne id x done runs
                (λ p. n (other k x p (v.active_live k x e').0, sym p)))
              (v.active_live k x e').0,
          (v.active_live k x e').1,
        );
    pending_waits = λ k x e.
        let (e', n) = lookup-release-some j k id x pending e in
        let w = v.pending_waits k x e' in
        (
          rw
              (lookup-insert_ne id x done runs
                (λ p. n (other k x p (Waits-Live k (lookup x runs) w.0), sym p)))
              w.0,
          w.1,
        );
    owned = λ x r e alive. holds x r alive (lookup-insert-cases id x done r runs e);
    staffed = λ x ph e. fits x ph e (same-cases id x);
  }
    where
      other : (k : ℤ) (x : ℕ) → id ≡ x → Live k (lookup x runs) → j ≡ k
      other k x p l = one_job_only j k (lookup id runs) live (rw p l)

      fits :
          (x : ℕ) (ph : Phase)
          → lookup x workers ≡ some ph
          → (((id == x) ≡ true) × (id ≡ x)) ⊎ (((id == x) ≡ false) × ¬ (id ≡ x))
          → Fits ph (lookup x (insert id done runs))
      fits x ph e (inl q) = rw (← q.1, lookup-insert_self id done runs) (fit ph (rw q.1 e))
      fits x ph e (inr q) = rw (lookup-insert_ne id x done runs q.1) (v.staffed x ph e)

      moved :
          (x : ℕ) (r : RunState)
          → ¬ (id ≡ x)
          → (lookup r.snapshot.job_id active ≡ some x) ⊎ (lookup r.snapshot.job_id pending ≡ some x)
          → (lookup r.snapshot.job_id (release j id active) ≡ some x)
            ⊎ (lookup r.snapshot.job_id (release j id pending) ≡ some x)
      moved x r n (inl e) =
          inl (lookup-release_ne j r.snapshot.job_id id x active e (λ p. n (sym p)))
      moved x r n (inr e) =
          inr (lookup-release_ne j r.snapshot.job_id id x pending e (λ p. n (sym p)))

      holds :
          (x : ℕ) (r : RunState)
          → has_ended r ≡ false
          → ((id ≡ x) × (done ≡ r)) ⊎ ((¬ (id ≡ x)) × (lookup x runs ≡ some r))
          → (lookup r.snapshot.job_id (release j id active) ≡ some x)
            ⊎ (lookup r.snapshot.job_id (release j id pending) ≡ some x)
      holds x r alive (inl (p, q)) = absurd (cc ended)
      holds x r alive (inr (p, q)) = moved x r p (v.owned x r q alive)
