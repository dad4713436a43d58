-- ===== src/RunService/Consistency.antt =====
-- What ties `runs`, `active`, `pending` and the workers of run_service.go together.
pub mod Slots
pub mod Closing
pub mod Promotion
pub mod Finishing
pub mod Staffing
pub mod Reserving
pub mod Touching
pub mod Steps
pub mod Stopping
pub mod Advancing
pub mod Replacing
pub mod Starting
pub mod Reachable
use sync_bridge.Base.{
  ℕ, ◌≡◌, ◌⊎◌, Bool, true, false, List, Option, none, some, ℤ, lookup, Unique, nat_keyed, int_keyed,
}
use sync_bridge.RunService.State.{
  RunStatus, no_status, RunResult, RunState, Phase, compiling, installing, installed, launching,
  executing, waiting, finishing, Service, is_terminal_run_status, is_queued, running, has_ended,
}
use sync_bridge.RunService.Retention.Laws.{Runs, IsNamed}

-- A run of the job that has not ended.
abbrev pub Live : ℤ → Option RunState → Type 0
Live j none = ⊥
Live j (some r) = (r.snapshot.job_id ≡ j) × (has_ended r ≡ false)

-- A run of the job that is queued, and that no executor is starting.
abbrev pub Waits : ℤ → Option RunState → Type 0
Waits j none = ⊥
Waits j (some r) =
    (r.snapshot.job_id ≡ j) × (is_queued r.snapshot.status ≡ true) × (r.starting ≡ false)

abbrev pub Present {ℓ} : {A : Type ℓ} → Option A → Type 0
Present none = ⊥
Present (some a) = Unit

-- Before the launch a worker's run is queued, unless it has ended or is forgotten.
abbrev pub Early : Option RunState → Type 0
Early none = Unit
Early (some r) =
    (has_ended r ≡ true) ⊎ ((is_queued r.snapshot.status ≡ true) × (r.starting ≡ false))

abbrev pub Launches : Option RunState → Type 0
Launches none = ⊥
Launches (some r) = (is_queued r.snapshot.status ≡ true) × (r.starting ≡ true)

abbrev pub RunsAs : ℕ → Option RunState → Type 0
RunsAs handle none = ⊥
RunsAs handle (some r) = (r.snapshot.status ≡ running) × (r.handle ≡ some handle)

-- A result that an execution may report: an end, or no status.
abbrev pub IsResult : RunResult → Type 0
IsResult result = (is_terminal_run_status result.status ≡ true) ⊎ (result.status ≡ no_status)

-- How the phase of a worker fits its run.
abbrev pub Fits : Phase → Option RunState → Type 0
Fits compiling o = Early o
Fits (installing plan) o = Early o
Fits (installed err plan) o = Early o
Fits (launching plan) o = Early o
Fits (executing plan) o = Launches o
Fits (waiting handle) o = RunsAs handle o
Fits (finishing result) o = IsResult result

pub record IsSlotted (runs : Runs) (active pending : List (ℤ × ℕ)) (workers : List (ℕ × Phase))
    : Type 0 where
  pub unique : Unique runs
  pub named : IsNamed runs
  -- The active slot of a job holds a live run of that job, which a worker executes.
  pub active_live :
      (j : ℤ) (id : ℕ)
      → lookup j active ≡ some id
      → Live j (lookup id runs) × Present (lookup id workers)
  -- The pending slot holds a queued run of that job, which no worker has.
  pub pending_waits :
      (j : ℤ) (id : ℕ)
      → lookup j pending ≡ some id
      → Waits j (lookup id runs) × (lookup id workers ≡ none)
  -- Every live run is in a slot of its job.
  pub owned :
      (id : ℕ) (r : RunState)
      → lookup id runs ≡ some r
      → has_ended r ≡ false
      → (lookup r.snapshot.job_id active ≡ some id) ⊎ (lookup r.snapshot.job_id pending ≡ some id)
  pub staffed :
      (id : ℕ) (phase : Phase) → lookup id workers ≡ some phase → Fits phase (lookup id runs)

-- A job's pending slot is taken only behind a run in its active slot.
abbrev pub Behind : List (ℤ × ℕ) → List (ℤ × ℕ) → Type 0
Behind active pending = (j : ℤ) (id : ℕ) → lookup j pending ≡ some id → Present (lookup j active)

pub record IsConsistent (s : Service) : Type 0 where
  pub slotted : IsSlotted s.runs s.active s.pending s.workers
  pub behind : Behind s.active s.pending
  pub safe : s.panicked ≡ false
