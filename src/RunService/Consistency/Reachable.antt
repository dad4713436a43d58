-- ===== src/RunService/Consistency/Reachable.antt =====
-- What holds of run_service.go in every state that its steps reach.
use sync_bridge.Base.{ℕ, inl, inr, some, lookup, nat_keyed, int_keyed, Option-cases}
use sync_bridge.LogBuffer.{LogLimits}
use sync_bridge.RunService.State.{Service}
use sync_bridge.RunService.Events.{subscribe, unsubscribe, receive}
use sync_bridge.RunService.Retention.{prune}
use sync_bridge.RunService.Consistency.{IsConsistent}
use sync_bridge.RunService.Consistency.Finishing.{trim_locked-IsConsistent}
use sync_bridge.RunService.Consistency.Touching.{
  consume_log-IsConsistent, persist_history-IsConsistent,
}
use sync_bridge.RunService.Consistency.Starting.{start-IsConsistent}
use sync_bridge.RunService.Consistency.Stopping.{stop-IsConsistent}
use sync_bridge.RunService.Consistency.Advancing.{advance-IsConsistent}
use sync_bridge.RunService.Consistency.Steps.{
  Step, starts, advances, stops, logs, prunes, persists, subscribes, unsubscribes, receives, Reach,
  here, next, new_run_service-IsConsistent,
}

prune-IsConsistent : (now : ℕ) (s : Service) → IsConsistent s → IsConsistent (prune now s)
unfolding prune
prune-IsConsistent now s v = trim_locked-IsConsistent now s v

receive-IsConsistent : (id : ℕ) (s : Service) → IsConsistent s → IsConsistent (receive id s)
unfolding receive
receive-IsConsistent id s v = elim (Option-cases (lookup id s.subscribers)) [
  | inl e ↦ rw (e, receive) v
  | inr (c, e) ↦ rw (e, receive) (record { slotted = v.slotted; behind = v.behind; safe = v.safe })
]

-- Every step of the service keeps the slots, the runs and the workers consistent.
pub Step-IsConsistent : {s t : Service} → Step s t → IsConsistent s → IsConsistent t
Step-IsConsistent {s} (starts now input found drawn fresh) v =
    start-IsConsistent now input found (some drawn) s v fresh
Step-IsConsistent {s} (advances now id phase answer e ok) v =
    advance-IsConsistent now id phase answer s v e ok
Step-IsConsistent {s} (stops now id) v = stop-IsConsistent now id s v
Step-IsConsistent {s} (logs now id line) v = consume_log-IsConsistent now id line s v
Step-IsConsistent {s} (prunes now) v = prune-IsConsistent now s v
Step-IsConsistent {s} (persists outcome) v = persist_history-IsConsistent outcome s v
Step-IsConsistent {s} (subscribes after) v =
    unfold subscribe in record { slotted = v.slotted; behind = v.behind; safe = v.safe }
Step-IsConsistent {s} (unsubscribes id) v =
    unfold unsubscribe in record { slotted = v.slotted; behind = v.behind; safe = v.safe }
Step-IsConsistent {s} (receives id) v = receive-IsConsistent id s v

pub Reach-IsConsistent : {limits : LogLimits} {s : Service} → Reach limits s → IsConsistent s
Reach-IsConsistent {limits} here = new_run_service-IsConsistent limits
Reach-IsConsistent (next r st) = Step-IsConsistent st (Reach-IsConsistent r)
