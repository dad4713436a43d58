-- ===== src/WatchManager/State.antt =====
-- The handles of watch_manager.go and what their goroutines and timers do. A handle is a reference into
-- a store, so that the comparison of pointers is one of references; an entry of `active` may be nil. A
-- timer that is pending will call `fire`. `true` in `started` says that the goroutines of the handle run.
use sync_bridge.Base.{
  ℕ, ◌+◌, String, Bool, true, false, not, ◌&&◌, ◌||◌, List, [], ◌∷◌, Option, none, some, ℤ, lookup,
  insert, delete, ◌==◌, nat_keyed, int_keyed, string_keyed, if◌then◌else◌,
}
use text.Mathlib.Text.{starts_with}
use sync_bridge.Text.{GoText}
use sync_bridge.RunService.State.{StartRunInput, watch_origin}
use sync_bridge.WatchManager.Spec.{WatchSpec, SpecError, matches_watch}

pub data WatchError : Type 0 where
  spec_failed : SpecError → WatchError
  host_failed : String → WatchError

pub record WatchHandle : Type 0 where
  pub spec : WatchSpec
  pub cancelled : Bool
  pub started : Bool
  pub timer : Option ℕ

pub record WatchManager : Type 0 where
  pub active : List (ℤ × Option ℕ)
  pub degraded : List (ℤ × Bool)
  pub errors : List (ℤ × WatchError)
  pub next_gen : ℕ
  pub closed : Bool
  pub handles : List (ℕ × WatchHandle)
  pub next_handle : ℕ
  pub timers : List (ℕ × ℕ)
  pub next_timer : ℕ
  pub panicked : Bool

-- The host as the watchers meet it: `none` is success.
pub record WatchHost : Type 0 where
  pub resolve_path : String → Option String
  pub check_source : String → Option WatchError
  pub new_watcher : Option WatchError
  pub add : String → Option WatchError
  pub add_tree : String → Option WatchError
  pub stat_is_dir : String → Option Bool

-- `m.active[id] == handle`
abbrev pub refers : Option (Option ℕ) → ℕ → Bool
refers (some (some held)) h = held == h
refers _ h = false

abbrev pub is_current : ℤ → ℕ → WatchManager → Bool
is_current id h m = refers (lookup id m.active) h

abbrev pub flag : Option Bool → Bool
flag none = false
flag (some b) = b

abbrev pub is_degraded : ℤ → WatchManager → Bool
is_degraded id m = flag (lookup id m.degraded)

-- `publishError` without a handle, and with one.
unfoldable pub publish_any : ℤ → WatchError → Bool → WatchManager → WatchManager
publish_any id err degraded m = if m.closed then m else record m {
  errors = insert id err m.errors;
  degraded = if degraded then insert id true m.degraded else m.degraded;
}

unfoldable pub publish_error : ℤ → ℕ → WatchError → Bool → WatchManager → WatchManager
unfolding publish_any
publish_error id h err degraded m = if is_current id h m then publish_any id err degraded m else m

unfoldable pub degrade : ℤ → ℕ → WatchError → WatchManager → WatchManager
unfolding publish_error
degrade id h err m = publish_error id h err true m

-- `timer.Stop()`
abbrev pub stop_timer : Option ℕ → List (ℕ × ℕ) → List (ℕ × ℕ)
stop_timer none timers = timers
stop_timer (some t) timers = delete t timers

unfoldable pub stop_found : ℕ → Option WatchHandle → WatchManager → WatchManager
stop_found h none m = m
stop_found h (some x) m = record m {
  handles = insert h (record x { cancelled = true; started = false }) m.handles;
  timers = stop_timer x.timer m.timers;
}

-- `handle.stop()`, which panics on nil.
unfoldable pub stop : Option ℕ → WatchManager → WatchManager
unfolding stop_found
stop none m = record m { panicked = true }
stop (some h) m = stop_found h (lookup h m.handles) m

unfoldable pub stop_all : List (Option ℕ) → WatchManager → WatchManager
unfolding stop
stop_all [] m = m
stop_all (h ∷ more) m = stop_all more (stop h m)

-- `rearmRoot`
abbrev pub rearmed : ℤ → ℕ → WatchManager → WatchManager
rearmed id h m =
    if is_current id h m && not m.closed
    then record m { degraded = delete id m.degraded; errors = delete id m.errors }
    else m

abbrev pub or_error : Option WatchError → Option WatchError → Option WatchError
or_error none err = err
or_error (some err) other = some err

unfoldable pub rearm_root : WatchHost → ℤ → ℕ → WatchSpec → WatchManager → WatchManager
unfolding degrade
rearm_root host id h spec m =
    elim (or_error (host.check_source spec.view_source) (host.add_tree spec.view_source)) [
      | some err ↦ degrade id h err m
      | none ↦ rearmed id h m
    ]

-- The check of `signalHandle`.
abbrev pub may_signal : ℤ → ℕ → WatchManager → Bool
may_signal id h m = not m.closed && is_current id h m && not (is_degraded id m)

-- The rest of `signalHandle`: the old timer is stopped and a new one set, unless the handle is stopped.
unfoldable pub arm_found : ℕ → Option WatchHandle → WatchManager → WatchManager
arm_found h none m = m
arm_found h (some x) m = if x.cancelled then m else record m {
  handles = insert h (record x { timer = some m.next_timer }) m.handles;
  timers = insert m.next_timer h (stop_timer x.timer m.timers);
  next_timer = m.next_timer + 1;
}

unfoldable pub signal_handle : ℤ → ℕ → WatchManager → WatchManager
unfolding arm_found
signal_handle id h m = if may_signal id h m then arm_found h (lookup h m.handles) m else m

-- A timer goes off: it is no longer pending, and calls `fire`.
unfoldable pub expire : ℕ → WatchManager → WatchManager
expire t m = record m { timers = delete t m.timers }

-- `fire`: what is started, and the state behind a source that is gone.
unfoldable pub fire_request : WatchHost → ℤ → ℕ → WatchSpec → WatchManager → Option StartRunInput
fire_request host id h spec m =
    if m.closed || not (is_current id h m) || is_degraded id m
    then none
    else elim (host.check_source spec.view_source) [
      | some err ↦ none
      | none ↦
          some (record {
            job_id = id;
            revision = spec.revision;
            origin = watch_origin;
            dry_run = false;
          })
    ]

unfoldable pub fire : WatchHost → ℤ → ℕ → WatchSpec → WatchManager → WatchManager
unfolding degrade
fire host id h spec m =
    if m.closed || not (is_current id h m) || is_degraded id m
    then m
    else elim (host.check_source spec.view_source) [ some err ↦ degrade id h err m | none ↦ m ]

-- The end of `fire`, behind an error of `Start` that is not an overlap.
unfoldable pub fire_failed : ℤ → ℕ → WatchError → WatchManager → WatchManager
unfolding publish_error
fire_failed id h err m = publish_error id h err false m

pub record FileEvent : Type 0 where
  pub name : String
  pub is_remove_or_rename : Bool
  pub is_create : Bool

abbrev pub same_path : GoText → String → String → Bool
same_path go a b = go.clean a == go.clean b

abbrev pub rel_within : GoText → Option String → Bool
rel_within go none = false
rel_within go (some rel) = not (rel == "..") && not (starts_with rel "../")

abbrev pub watch_path_within : GoText → String → String → Bool
watch_path_within go root path = rel_within go (go.rel root path)

-- What follows a new entry: `none` to go on, else the error.
abbrev pub new_entry_error : WatchHost → String → Option WatchError
new_entry_error host name = elim (host.stat_is_dir name) [
  | none ↦ some (host_failed "stat")
  | some false ↦ none
  | some true ↦ host.add_tree name
]

-- `handleEvent` from the check of the path on.
unfoldable pub handle_inner :
    GoText → WatchHost → ℤ → ℕ → WatchSpec → FileEvent → WatchManager → WatchManager
unfolding degrade signal_handle matches_watch
handle_inner go host id h spec event m =
    if not (watch_path_within go spec.view_source event.name)
    then m
    else elim (if event.is_create then new_entry_error host event.name else none) [
      | some err ↦ degrade id h err m
      | none ↦ if matches_watch go spec.globs event.name then signal_handle id h m else m
    ]

unfoldable pub handle_event :
    GoText → WatchHost → ℤ → ℕ → WatchSpec → FileEvent → WatchManager → WatchManager
unfolding handle_inner rearm_root degrade
handle_event go host id h spec event m =
    let inner = handle_inner go host id h spec event m in
    if same_path go event.name spec.view_source
    then (if event.is_remove_or_rename
        then degrade id h (host_failed "watch root disappeared") m
        else (if event.is_create then rearm_root host id h spec m else inner))
    else inner

-- One tick of `poll`: the signature last seen, and the new one unless it failed.
unfoldable pub poll_tick : ℤ → ℕ → String → Option String → WatchManager → WatchManager × String
unfolding degrade signal_handle
poll_tick id h last none m = (degrade id h (host_failed "signature") m, last)
poll_tick id h last (some now) m = if now == last then (m, last) else (signal_handle id h m, now)
