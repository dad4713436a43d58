-- ===== src/Scheduler/Firing.antt =====
-- Which callbacks of scheduler.go still start a run after a reconciliation.
use sync_bridge.Base.{
  ℕ, suc, ◌+◌, ◌^◌, ◌<◌, ◌≤◌, String, ◌&&◌, List, [], ◌∷◌, Option, none, some, ℤ, lookup, insert,
  ◌==◌, int_keyed, nat_keyed, string_keyed, ◌≡◌, ◌≢◌, refl, sym, ◌∙◌, ◌⊎◌, inl, inr, length, All,
  All-map, insert-All, lookup-All, Bool-cases, Option-cases, same-cases, arith, Unique, Unique-All,
}
use sync_bridge.Job.{Job, u64}
use sync_bridge.Scheduler.{
  ScheduledJob, Scheduler, Wanted, Plan, CronEngine, Installed, AddOutcome, added_entry, add_failed,
  plan_added, plan_current, plan_entries, plan_desired, plan, install, with_entry, commit,
  reconcile, wanted, fire,
}

-- A registration made after this generation.
abbrev IsNew : ℕ → ℤ × ScheduledJob → Type 0
IsNew gen x = gen < x.1.generation

-- A registration that stood before, or a new one.
abbrev IsKept : List (ℤ × ScheduledJob) → ℕ → ℤ × ScheduledJob → Type 0
IsKept old gen x = (lookup x.0 old ≡ some x.1) ⊎ (gen < x.1.generation)

-- The plan has come this many generations further at most, and mixes old with new.
abbrev IsMixed : List (ℤ × ScheduledJob) → ℕ → ℕ → Plan → Type 0
IsMixed old gen n p =
    (gen ≤ p.next_gen)
    × (p.next_gen ≤ gen + n)
    × All (IsKept old gen) p.next
    × All (IsNew gen) p.added

u64-small : (n : ℕ) → n < 2 ^ 64 → u64 n ≡ n
u64-small n h = omega arith

plan_added-IsMixed :
    (old : List (ℤ × ScheduledJob)) (gen n : ℕ) (id : ℤ) (want : ScheduledJob) (p : Plan)
    → gen + suc n < 2 ^ 64
    → IsMixed old gen n p
    → IsMixed old gen (suc n) (plan_added id want p)
unfolding plan_added
plan_added-IsMixed old gen n id want p b (lo, hi, kept, new) =
    let g : u64 (p.next_gen + 1) ≡ p.next_gen + 1 = u64-small (p.next_gen + 1) (omega arith) in
    let above : gen < u64 (p.next_gen + 1) = omega (arith, g) in
    (
      omega (arith, g),
      omega (arith, g),
      insert-All (IsKept old gen) id _ p.next (inr above) kept,
      insert-All (IsNew gen) id _ p.added above new,
    )

IsMixed-weaken :
    (old : List (ℤ × ScheduledJob)) (gen n : ℕ) (p : Plan)
    → IsMixed old gen n p
    → IsMixed old gen (suc n) p
IsMixed-weaken old gen n p (lo, hi, kept, new) = (lo, omega arith, kept, new)

plan_current-IsMixed :
    (old : List (ℤ × ScheduledJob)) (gen n : ℕ) (id : ℤ) (current : ScheduledJob)
    (want : Option ScheduledJob) (p : Plan)
    → gen + suc n < 2 ^ 64
    → lookup id old ≡ some current
    → IsMixed old gen n p
    → IsMixed old gen (suc n) (plan_current id current want p)
unfolding plan_current
plan_current-IsMixed old gen n id current none p b q m = IsMixed-weaken old gen n p m
plan_current-IsMixed old gen n id current (some want) p b q m =
    elim (Bool-cases (current.revision == want.revision && current.spec == want.spec)) [
      | inl h ↦
          rw h (m.0, omega arith, insert-All (IsKept old gen) id current p.next (inl q) m.2, m.3)
      | inr h ↦ rw h (plan_added-IsMixed old gen n id want p b m)
    ]

plan_entries-IsMixed :
    (old : List (ℤ × ScheduledJob)) (gen n : ℕ) (w : Wanted) (xs : List (ℤ × ScheduledJob))
    (p : Plan)
    → gen + (n + length xs) < 2 ^ 64
    → All (λ (x : ℤ × ScheduledJob). lookup x.0 old ≡ some x.1) xs
    → IsMixed old gen n p
    → IsMixed old gen (n + length xs) (plan_entries w xs p)
unfolding plan_entries
plan_entries-IsMixed old gen n w [] p b q m = (m.0, omega arith, m.2, m.3)
plan_entries-IsMixed old gen n w ((id, current) ∷ more) p b q m =
    let go : (p' : Plan)
        → IsMixed old gen (suc n) p'
        → IsMixed old gen (n + suc (length more)) (plan_entries w more p') =
      λ p' m'.
        let (lo, hi, kept, new) =
          plan_entries-IsMixed old gen (suc n) w more p' (omega arith) q.1 m' in
        (lo, omega arith, kept, new) in
    elim (Option-cases (lookup id w.invalid)) [
      | inr (err, h) ↦
          rw (h, plan_entries)
            (go (record p { next = insert id current p.next })
              (m.0, omega arith, insert-All (IsKept old gen) id current p.next (inl q.0) m.2, m.3))
      | inl h ↦
          rw (h, plan_entries)
            (go (plan_current id current (lookup id w.desired) p) (
              plan_current-IsMixed old gen n id current (lookup id w.desired) p (omega arith) q.0
                m))
    ]

plan_desired-IsMixed :
    (old : List (ℤ × ScheduledJob)) (gen n : ℕ) (xs : List (ℤ × ScheduledJob)) (p : Plan)
    → gen + (n + length xs) < 2 ^ 64
    → IsMixed old gen n p
    → IsMixed old gen (n + length xs) (plan_desired old xs p)
unfolding plan_desired
plan_desired-IsMixed old gen n [] p b m = (m.0, omega arith, m.2, m.3)
plan_desired-IsMixed old gen n ((id, want) ∷ more) p b m =
    let go : (p' : Plan)
        → IsMixed old gen (suc n) p'
        → IsMixed old gen (n + suc (length more)) (plan_desired old more p') =
      λ p' m'.
        let (lo, hi, kept, new) = plan_desired-IsMixed old gen (suc n) more p' (omega arith) m' in
        (lo, omega arith, kept, new) in
    elim (Option-cases (lookup id old)) [
      | inr (current, h) ↦ rw (h, plan_desired) (go p (IsMixed-weaken old gen n p m))
      | inl h ↦
          rw (h, plan_desired)
            (go (plan_added id want p) (plan_added-IsMixed old gen n id want p (omega arith) m))
    ]

plan-IsMixed :
    (w : Wanted) (s : Scheduler)
    → Unique s.entries
    → s.next_gen + (length s.entries + length w.desired) < 2 ^ 64
    → IsMixed s.entries s.next_gen (length s.entries + length w.desired) (plan w s)
unfolding plan
plan-IsMixed w s u b =
    let empty : Plan = record { next = []; added = []; removed = []; next_gen = s.next_gen } in
    let (lo, hi, kept, new) =
      plan_entries-IsMixed s.entries s.next_gen 0 w s.entries empty (omega arith)
        (Unique-All s.entries u) (omega arith, omega arith, tt, tt) in
    plan_desired-IsMixed s.entries s.next_gen (length s.entries) w.desired
      (plan_entries w s.entries empty) b (lo, omega arith, kept, new)

-- What a callback that starts a run found.
fire-current :
    (id : ℤ) (revision generation : ℕ) (s : Scheduler)
    → fire id revision generation s ≢ none
    → (now : ScheduledJob) × (lookup id s.entries ≡ some now) × (now.generation ≡ generation)
unfolding fire
fire-current id revision generation s f = elim (Option-cases (lookup id s.entries)) [
  | inl q ↦ absurd (f (rw (q, fire) refl))
  | inr (now, q) ↦ elim (same-cases now.generation generation) [
    | inl g ↦ (now, q, g.1)
    | inr g ↦ absurd (f (ground (arith, q, g.0)))
  ]
]

module _ {C : Type 0} (cron : CronEngine C) where
  install-IsKept :
      (old : List (ℤ × ScheduledJob)) (gen : ℕ) (todo : List (ℤ × ScheduledJob)) (p : Plan) (c : C)
      → All (IsNew gen) todo
      → All (IsKept old gen) p.next
      → All (IsKept old gen) (install cron todo p c).result.next
  unfolding install
  install-IsKept old gen [] p c new kept = kept
  install-IsKept old gen ((id, want) ∷ more) p c new kept =
      go (cron.add_func want.spec id want.revision want.generation c).1 refl
        (λ p' c' k. install-IsKept old gen more p' c' new.1 k)
    where
      go :
          (o : AddOutcome)
          → (cron.add_func want.spec id want.revision want.generation c).1 ≡ o
          → ((p' : Plan) (c' : C)
              → All (IsKept old gen) p'.next
              → All (IsKept old gen) (install cron more p' c').result.next)
          → All (IsKept old gen) (install cron ((id, want) ∷ more) p c).result.next
      go (add_failed text) q rest = rw (q, install) kept
      go (added_entry entry) q rest =
          rw (q, install)
            (rest (with_entry cron id (record want { entry = entry }) p)
              (cron.add_func want.spec id want.revision want.generation c).0
              (insert-All (IsKept old gen) id (record want { entry = entry }) p.next (inr new.0)
                kept))

  commit-IsKept :
      (old : List (ℤ × ScheduledJob)) (gen : ℕ) (w : Wanted) (s : Scheduler) (i : Installed C)
      → All (IsKept old gen) s.entries
      → All (IsKept old gen) i.result.next
      → All (IsKept old gen) (commit cron w s i).0.entries
  unfolding commit
  commit-IsKept old gen w s i was now = elim (Option-cases i.refused) [
    | inl q ↦ rw (q, commit) now
    | inr (x, q) ↦ rw (q, commit) was
  ]

  reconcile-IsKept :
      (fields : String → List String) (jobs : List Job) (s : Scheduler) (c : C)
      → Unique s.entries
      → s.next_gen
          + (length s.entries
              + length (wanted fields jobs (record { desired = []; invalid = [] })).desired)
        < 2 ^ 64
      → All (IsKept s.entries s.next_gen) (reconcile cron fields jobs s c).0.entries
  unfolding reconcile
  reconcile-IsKept fields jobs s c u b =
      let w = wanted fields jobs (record { desired = []; invalid = [] }) in
      let p = plan w s in
      let was : All (IsKept s.entries s.next_gen) s.entries =
        All-map (λ x q. inl q) s.entries (Unique-All s.entries u) in
      let (lo, hi, kept, new) = plan-IsMixed w s u b in
      elim (Bool-cases s.closed) [
        | inl h ↦ simp h was
        | inr h ↦ simp h (
            commit-IsKept s.entries s.next_gen w s (install cron p.added p c) was
              (install-IsKept s.entries s.next_gen p.added p c new kept))
      ]

  -- Registrations under distinct jobs, numbers that do not wrap, and a callback registered no later
  -- than now for a job whose registration stands: after a reconciliation that callback starts a run
  -- only if the same registration still stands.
  pub reconcile-fire :
      (fields : String → List String) (jobs : List Job) (s : Scheduler) (c : C) (id : ℤ)
      (current : ScheduledJob)
      → Unique s.entries
      → s.next_gen
          + (length s.entries
              + length (wanted fields jobs (record { desired = []; invalid = [] })).desired)
        < 2 ^ 64
      → lookup id s.entries ≡ some current
      → current.generation ≤ s.next_gen
      → fire id current.revision current.generation (reconcile cron fields jobs s c).0 ≢ none
      → lookup id (reconcile cron fields jobs s c).0.entries ≡ some current
  reconcile-fire fields jobs s c id current u b q g f =
      let after = (reconcile cron fields jobs s c).0 in
      let (now, found, same) = fire-current id current.revision current.generation after f in
      elim (lookup-All (IsKept s.entries s.next_gen) after.entries id now
        (reconcile-IsKept fields jobs s c u b) found) [
          | inl old ↦ found ∙ sym old ∙ q
          | inr new ↦ absurd (omega (arith, same, g, new))
        ]
