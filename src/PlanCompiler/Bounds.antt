-- ===== src/PlanCompiler/Bounds.antt =====
-- What `compileExecutionBounds` of execution_plan.go lets through.
use sync_bridge.Job.{ExecutionPolicy}
use sync_bridge.PlanCompiler.Checks.{compile_execution_bounds, Bounds, int_or}
use sync_bridge.Base.{
  zero, suc, ℤ, times64, ℕ, ◌≡◌, ◌≤◌, pos, int_ltb, ok, if◌then◌else◌, ◌||◌, ◌*◌, ◌==◌, false,
  second, nat_keyed, ◌<◌, negsuc, ◌⊎◌, refl, arith, refuse_if-ok, ltb, subst, inl, ok-inj, inr,
}

-- A number of seconds up to a limit as a duration: the default for none, and exact otherwise.
abbrev pub IsWithin : ℤ → ℤ → ℕ → ℕ → Type 0
IsWithin seconds d fallback limit =
    (s : ℕ) × (seconds ≡ pos s) × (s ≤ limit) × (d ≡ pos (if s == 0 then fallback else s * second))

duration :
    (s fallback : ℕ)
    → s ≤ 1000000
    → int_or (times64 (pos s) second) (pos fallback) ≡ pos (if s == 0 then fallback else s * second)
unfolding times64
duration s fallback small = ground arith

seconds-IsWithin :
    (seconds : ℤ) (fallback limit : ℕ)
    → limit ≤ 1000000
    → (int_ltb seconds (pos 0) || int_ltb (pos limit) seconds) ≡ false
    → IsWithin seconds (int_or (times64 seconds second) (pos fallback)) fallback limit
unfolding times64
seconds-IsWithin (negsuc n) fallback limit small h = absurd (cc h)
seconds-IsWithin (pos s) fallback limit small h =
    (s, refl, ground arith, duration s fallback (ground arith))

umask-bounds :
    (u : ℕ)
    → ltb 511 u ≡ false
    → (0 < (if u == 0 then 18 else u))
      × ((if u == 0 then 18 else u) ≤ 511)
      × (u ≡ 0 ⊎ (if u == 0 then 18 else u) ≡ u)
umask-bounds zero h = (ground arith, ground arith, inl refl)
umask-bounds (suc u) h = (ground arith, ground arith, inr (ground arith))

-- The durations of a policy that is accepted are those asked for without overflow, at most seven days
-- and 300 seconds, with an hour and ten seconds where none is asked for; the umask is not 0, at
-- most 0777, and the one asked for unless that is 0.
pub compile_execution_bounds-bounds :
    (policy : ExecutionPolicy) (b : Bounds)
    → compile_execution_bounds policy ≡ ok b
    → IsWithin policy.timeout_seconds b.timeout (3600 * second) 604800
      × IsWithin policy.stop_grace_seconds b.stop_grace (10 * second) 300
      × (0 < b.umask)
      × (b.umask ≤ 511)
      × (policy.umask ≡ 0 ⊎ b.umask ≡ policy.umask)
unfolding compile_execution_bounds
compile_execution_bounds-bounds policy b h =
    let (timeouts, h1) = refuse_if-ok _ _ _ h in
    let (graces, h2) = refuse_if-ok _ _ _ h1 in
    let (umasks, made) = refuse_if-ok _ _ _ h2 in
    let mask = umask-bounds policy.umask umasks in
    subst Bounded (ok-inj made) (
      seconds-IsWithin policy.timeout_seconds (3600 * second) 604800 (ground arith) timeouts,
      seconds-IsWithin policy.stop_grace_seconds (10 * second) 300 (ground arith) graces,
      mask.0,
      mask.1,
      mask.2,
    )
  where
    Bounded : Bounds → Type 0
    Bounded b =
        IsWithin policy.timeout_seconds b.timeout (3600 * second) 604800
        × IsWithin policy.stop_grace_seconds b.stop_grace (10 * second) 300
        × (0 < b.umask)
        × (b.umask ≤ 511)
        × (policy.umask ≡ 0 ⊎ b.umask ≡ policy.umask)
