-- ===== src/PersistentScheduler/Orphans.antt =====
-- Whose files persistent_scheduler.go removes.
use sync_bridge.PlanCompiler.Types.{ExecutionPlan}
use sync_bridge.PlanCompiler.Setting.{or-grows}
use sync_bridge.PersistentScheduler.{
  SystemHost, reconcile, remove_all, orphans, apply_one, apply_jobs, Applied, doomed, preserved,
  applied, is_persistent, after_installation, apply_job, after_compilation, persistent_request,
  ids_of, is_triggered, found_names,
}
use sync_bridge.Job.{Job}
use sync_bridge.Base.{
  if◌then◌else◌, ◌≡◌, refl, none, some, [], ◌∷◌, true, false, String, ℤ, Bool, elem, List, ◌||◌,
  Bool-cases, int_keyed, inl, ◌==◌, or-right, or-left, Option, ◌++◌, ap, elem-head, ◌∙◌, inr,
  same-cases, subst, sym,
}

module _ {S : Type 0} (host : SystemHost S) (instance_id : String) where
  orphans-kept :
      (id : ℤ) (desired preserve ids : List ℤ)
      → (elem id desired || elem id preserve) ≡ true
      → elem id (orphans host instance_id desired preserve ids) ≡ false
  unfolding orphans elem
  orphans-kept id desired preserve [] kept = refl
  orphans-kept id desired preserve (first ∷ more) kept =
      elim (Bool-cases (elem first desired || elem first preserve)) [
        | inl q ↦
            ap
              (λ b. elem id (
                if b
                then orphans host instance_id desired preserve more
                else first ∷ orphans host instance_id desired preserve more))
              q
            ∙ orphans-kept id desired preserve more kept
        | inr q ↦ elim (same-cases first id) [
          | inl r ↦ absurd (cc (kept, q, r.1))
          | inr r ↦
              ap
                (λ b. elem id (
                  if b
                  then orphans host instance_id desired preserve more
                  else first ∷ orphans host instance_id desired preserve more))
                q
              ∙ ap (λ b. b || elem id (orphans host instance_id desired preserve more)) r.0
              ∙ orphans-kept id desired preserve more kept
        ]
      ]

  -- A job that stands or whose files are left.
  abbrev IsKept : ℤ → Applied host instance_id → Type 0
  IsKept id a = (elem id a.desired || elem id a.preserve) ≡ true

  or-behind : (x d p : Bool) → (d || p) ≡ true → (d || (x || p)) ≡ true
  or-behind x true p h = refl
  or-behind true false p h = refl
  or-behind false false p h = h

  preserved-IsKept :
      (id job_id : ℤ) (s : S) (a : Applied host instance_id)
      → IsKept id a
      → IsKept id (preserved host instance_id job_id s a)
  unfolding elem
  preserved-IsKept id job_id s a k =
      or-behind (job_id == id) (elem id a.desired) (elem id a.preserve) k

  preserved_self :
      (id : ℤ) (s : S) (a : Applied host instance_id)
      → IsKept id (preserved host instance_id id s a)
  preserved_self id s a =
      or-right (elem id a.desired) (elem id (id ∷ a.preserve)) (elem-head id a.preserve)

  applied-IsKept :
      (id job_id : ℤ) (p : S × Bool) (a : Applied host instance_id)
      → IsKept id a
      → IsKept id (applied host instance_id job_id p a)
  unfolding elem
  applied-IsKept id job_id (s, true) a k = preserved-IsKept id job_id s a k
  applied-IsKept id job_id (s, false) a k =
      or-grows (job_id == id) (elem id a.desired) (elem id a.preserve) k

  applied_self :
      (id : ℤ) (p : S × Bool) (a : Applied host instance_id)
      → IsKept id (applied host instance_id id p a)
  applied_self id (s, true) a = preserved_self id s a
  applied_self id (s, false) a =
      or-left (elem id (id ∷ a.desired)) (elem id a.preserve) (elem-head id a.desired)

  -- What is shown of the two ways in which a job ends holds of the whole round.
  apply_one-cases :
      (job : Job) (a : Applied host instance_id) (P : Applied host instance_id → Type 0)
      → ((s : S) → P (preserved host instance_id job.id s a))
      → ((p : S × Bool) → P (applied host instance_id job.id p a))
      → P (apply_one host instance_id job a)
  unfolding apply_one
  apply_one-cases job a P left stood = triggered (is_triggered host instance_id job.trigger)
    where
      installed : (q : S × Option String) → P (after_installation host instance_id job q a)
      installed (s, none) = left s
      installed (s, some wrapper) = stood (apply_job host instance_id job wrapper s)

      compiled : (q : S × Option ExecutionPlan) → P (after_compilation host instance_id job q a)
      compiled (s, none) = left s
      compiled (s, some plan) = installed (host.install plan s)

      triggered :
          (b : Bool)
          → P (
              if b
              then after_compilation host instance_id job
                  (host.compile job (persistent_request host instance_id job) a.host_state)
                  a
              else preserved host instance_id job.id a.host_state a)
      triggered true =
          compiled (host.compile job (persistent_request host instance_id job) a.host_state)
      triggered false = left a.host_state

  apply_one-IsKept :
      (id : ℤ) (job : Job) (a : Applied host instance_id)
      → IsKept id a
      → IsKept id (apply_one host instance_id job a)
  apply_one-IsKept id job a k =
      apply_one-cases job a (IsKept id) (λ s. preserved-IsKept id job.id s a k)
        (λ p. applied-IsKept id job.id p a k)

  apply_one_self :
      (job : Job) (a : Applied host instance_id) → IsKept job.id (apply_one host instance_id job a)
  apply_one_self job a =
      apply_one-cases job a (IsKept job.id) (λ s. preserved_self job.id s a)
        (λ p. applied_self job.id p a)

  either-IsKept :
      (id : ℤ) (b : Bool) (x a : Applied host instance_id)
      → IsKept id x
      → IsKept id a
      → IsKept id (if b then x else a)
  either-IsKept id true x a k k' = k
  either-IsKept id false x a k k' = k'

  apply_jobs-IsKept :
      (id : ℤ) (jobs : List Job) (a : Applied host instance_id)
      → IsKept id a
      → IsKept id (apply_jobs host instance_id jobs a)
  unfolding apply_jobs
  apply_jobs-IsKept id [] a k = k
  apply_jobs-IsKept id (job ∷ more) a k =
      apply_jobs-IsKept id more
        (if is_persistent host instance_id job then apply_one host instance_id job a else a)
        (either-IsKept id (is_persistent host instance_id job) (apply_one host instance_id job a) a
          (apply_one-IsKept id job a k) k)

  apply_jobs-spares :
      (before after : List Job) (job : Job) (a : Applied host instance_id)
      → is_persistent host instance_id job ≡ true
      → elem job.id
          (doomed host instance_id (apply_jobs host instance_id (before ++ (job ∷ after)) a))
        ≡ false
  unfolding apply_jobs doomed
  apply_jobs-spares [] after job a stands =
      let b =
        apply_jobs host instance_id after
          (if is_persistent host instance_id job then apply_one host instance_id job a else a) in
      orphans-kept job.id b.desired b.preserve
        (ids_of host instance_id (found_names host instance_id b.host_state))
        (apply_jobs-IsKept job.id after
          (if is_persistent host instance_id job then apply_one host instance_id job a else a)
          (subst (λ t. IsKept job.id (if t then apply_one host instance_id job a else a))
            (sym stands) (apply_one_self job a)))
  apply_jobs-spares (first ∷ before) after job a stands =
      apply_jobs-spares before after job
        (if is_persistent host instance_id first then apply_one host instance_id first a else a)
        stands

  -- Behind the loop over the jobs, a reconciliation removes the files of some identifiers, and nothing else. An
  -- enabled and reviewed job of the system's scheduler, wherever it stands among the jobs, is not one of
  -- them, even if its plan, its wrapper or its files fail. The loop itself may have replaced its files.
  pub reconcile-spares :
      (before after : List Job) (job : Job) (s : S)
      → is_persistent host instance_id job ≡ true
      → (a : Applied host instance_id) × (ids : List ℤ) × (a
          ≡ apply_jobs host instance_id
              (before ++ (job ∷ after))
              (record { host_state = s; desired = []; preserve = []; failed = false }))
        × ((reconcile host instance_id (before ++ (job ∷ after)) s).0
            ≡ (remove_all host instance_id ids a.host_state).0)
        × (elem job.id ids ≡ false)
  unfolding reconcile
  reconcile-spares before after job s stands =
      let start : Applied host instance_id = record {
        host_state = s;
        desired = [];
        preserve = [];
        failed = false;
      } in
      let a = apply_jobs host instance_id (before ++ (job ∷ after)) start in
      (a, doomed host instance_id a, refl, refl, apply_jobs-spares before after job start stands)
