-- ===== src/RunService/Consistency/Steps.antt =====
-- The steps of run_service.go, in any interleaving of its callers and goroutines, and what they keep.
use sync_bridge.Base.{ℕ, ◌≡◌, refl, List, Option, none, some, String, lookup, nat_keyed, int_keyed}
use sync_bridge.Job.{Job}
use sync_bridge.LogBuffer.{LogLimits}
use sync_bridge.RunService.State.{StartRunInput, Phase, Service, new_run_service}
use sync_bridge.RunService.Events.{subscribe, unsubscribe, receive}
use sync_bridge.RunService.Retention.{prune}
use sync_bridge.RunService.Finish.{persist_history}
use sync_bridge.RunService.Start.{start}
use sync_bridge.RunService.Worker.{Answer, exited, advance, consume_log}
use sync_bridge.RunService.Control.{stop}
use sync_bridge.RunService.Consistency.{IsResult, IsConsistent}
use sync_bridge.RunService.Consistency.Reserving.{IsFresh}

-- What the executor may answer: a process ends with a terminal status, or with none.
abbrev pub IsAnswer : Answer → Type 0
IsAnswer (exited result) = IsResult result
IsAnswer _ = Unit

-- A drawn run ID is fresh.
abbrev pub IsFreshDraw : Option ℕ → Service → Type 0
IsFreshDraw none s = Unit
IsFreshDraw (some id) s = IsFresh id s

-- One critical section, by whichever goroutine comes first.
pub data Step (s : Service) : Service → Type 0 where
  starts :
      (now : ℕ) (input : StartRunInput) (found : Option Job) (drawn : ℕ)
      → IsFresh drawn s
      → Step s (start now input found (some drawn) s).0
  advances :
      (now id : ℕ) (phase : Phase) (answer : Answer)
      → lookup id s.workers ≡ some phase
      → IsAnswer answer
      → Step s (advance now id phase answer s)
  stops : (now id : ℕ) → Step s (stop now id s).0
  logs : (now id : ℕ) (line : List ℕ) → Step s (consume_log now id line s)
  prunes : (now : ℕ) → Step s (prune now s)
  persists : (outcome : Option String) → Step s (persist_history outcome s)
  subscribes : (after : ℕ) → Step s (subscribe after s).0
  unsubscribes : (id : ℕ) → Step s (unsubscribe id s)
  receives : (id : ℕ) → Step s (receive id s)

pub data Reach (limits : LogLimits) : Service → Type 0 where
  here : Reach limits (new_run_service limits)
  next : {s t : Service} → Reach limits s → Step s t → Reach limits t

pub new_run_service-IsConsistent : (limits : LogLimits) → IsConsistent (new_run_service limits)
unfolding new_run_service lookup
new_run_service-IsConsistent limits = record {
  slotted = record {
    unique = tt;
    named = tt;
    active_live = λ j id e. absurd (cc e);
    pending_waits = λ j id e. absurd (cc e);
    owned = λ id r e. absurd (cc e);
    staffed = λ id ph e. absurd (cc e);
  };
  behind = λ j id e. absurd (cc e);
  safe = refl;
}
