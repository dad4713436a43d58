-- ===== src/RunService/Events.antt =====
-- Events of run_service.go: `publishLocked`, `publishLog`, `Subscribe` and its `Close`.
use sync_bridge.Base.{
  ℕ, ◌+◌, ◌*◌, List, [], ◌∷◌, ◌++◌, Option, none, some, length, ltb, last_n, lookup, insert, delete,
  map_values, if◌then◌else◌, nat_keyed,
}
use sync_bridge.Job.{u64}
use sync_bridge.RunService.State.{
  RunSnapshot, RunState, RunEvent, state_event, log_event, Channel, Service, has_ended,
}

-- `select { case subscriber <- event: default: }`
unfoldable pub deliver : RunEvent → Channel → Channel
deliver event c =
    if ltb (length c.buffer) c.capacity then record c { buffer = c.buffer ++ (event ∷ []) } else c

-- The retained events: at most eight for each retained run.
unfoldable pub retain_events : ℕ → List RunEvent → List RunEvent
retain_events max_events events =
    if ltb max_events (length events) then last_n max_events events else events

-- The part that `publishLocked` and `publishLog` share.
unfoldable pub publish_event : RunEvent → Service → Service
unfolding deliver retain_events
publish_event event s = record s {
  event_id = event.id;
  events = retain_events (s.limits.max_runs * 8) (s.events ++ (event ∷ []));
  subscribers = map_values (deliver event) s.subscribers;
}

unfoldable pub publish_locked : RunSnapshot → Service → Service
unfolding publish_event
publish_locked snapshot s =
    publish_event
      (record { id = u64 (s.event_id + 1); kind = state_event; run = snapshot; log = [] }) s

unfoldable pub publish_log_of : List ℕ → Service → Option RunState → Service
unfolding publish_event
publish_log_of line s none = s
publish_log_of line s (some run) =
    if has_ended run
    then s
    else publish_event
        (record { id = u64 (s.event_id + 1); kind = log_event; run = run.snapshot; log = line }) s

unfoldable pub publish_log : ℕ → List ℕ → Service → Service
unfolding publish_log_of
publish_log id line s = publish_log_of line s (lookup id s.runs)

-- The events behind the one that the subscriber saw last.
unfoldable pub replay_after : ℕ → List RunEvent → List RunEvent
replay_after after [] = []
replay_after after (event ∷ events) =
    let rest = replay_after after events in if ltb after event.id then event ∷ rest else rest

-- `Subscribe`: the new state and the subscriber's key.
unfoldable pub subscribe : ℕ → Service → Service × ℕ
unfolding replay_after
subscribe after s =
    let replay = replay_after after s.events in
    let id = u64 (s.next_sub_id + 1) in
    (
      record s {
        next_sub_id = id;
        subscribers =
            insert id (record { capacity = length replay + 64; buffer = replay }) s.subscribers;
      },
      id,
    )

-- `RunSubscription.Close`; a second call finds no subscriber.
unfoldable pub unsubscribe : ℕ → Service → Service
unsubscribe id s = record s { subscribers = delete id s.subscribers }

unfoldable pub received : Channel → Channel
received c = elim c.buffer [ [] ↦ c | event ∷ rest ↦ record c { buffer = rest } ]

-- A subscriber takes the oldest event from its channel.
unfoldable pub receive : ℕ → Service → Service
unfolding received
receive id s = elim (lookup id s.subscribers) [
  | none ↦ s
  | some c ↦ record s { subscribers = insert id (received c) s.subscribers }
]
