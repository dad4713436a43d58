-- ===== src/WatchManager/Reconcile.antt =====
-- `Reconcile`, `newHandle`, `start` and `Close` of watch_manager.go. `Reconcile` takes `m.mu` twice, and
-- in between other goroutines run: `begin`, `prepare` and `finish` are its three parts. A map is walked in
-- the order of its entries.
use sync_bridge.Base.{
  ℕ, ◌+◌, String, Bool, true, false, not, ◌&&◌, ◌||◌, List, [], ◌∷◌, ◌++◌, Option, none, some, ℤ,
  lookup, insert, delete, ◌==◌, map, nat_keyed, int_keyed, string_keyed, if◌then◌else◌,
}
use sync_bridge.Job.{Job, u64, watch_trigger}
use sync_bridge.Scheduler.{scheduler_eligible}
use sync_bridge.Text.{GoText}
use sync_bridge.WatchManager.Spec.{
  WatchSpec, SpecResult, spec_of, spec_error, watch_spec_for, same_watch_spec,
}
use sync_bridge.WatchManager.State.{
  WatchManager, WatchHandle, WatchHost, WatchError, spec_failed, host_failed, is_degraded, or_error,
  publish_any, stop_all,
}

-- What the jobs ask for, and those refused.
pub record Wanted : Type 0 where
  pub desired : List (ℤ × WatchSpec)
  pub invalid : List (ℤ × WatchError)

-- The specification with its view, if the source is there.
abbrev pub viewed : WatchHost → WatchSpec → Option String → Option WatchSpec × WatchError
viewed host spec none = (none, host_failed "resolve")
viewed host spec (some view) = elim (host.check_source view) [
  | some err ↦ (none, err)
  | none ↦ (some (record spec { view_source = view }), host_failed "")
]

abbrev pub checked_spec : WatchHost → SpecResult → Option WatchSpec × WatchError
checked_spec host (spec_error err) = (none, spec_failed err)
checked_spec host (spec_of spec) = viewed host spec (host.resolve_path spec.source)

abbrev pub want : Job → Option WatchSpec × WatchError → Wanted → Wanted
want job (none, err) w = record w { invalid = insert job.id err w.invalid }
want job (some spec, err) w = record w { desired = insert job.id spec w.desired }

unfoldable pub wanted : GoText → WatchHost → List Job → Wanted → Wanted
wanted go host [] w = w
wanted go host (job ∷ more) w = wanted go host more (
    if scheduler_eligible job watch_trigger
    then want job (checked_spec host (watch_spec_for go job)) w
    else w)

-- Whether the watcher that is there serves: `m.active[id]` is not nil, has the same specification, and
-- is not degraded.
abbrev pub handle_serves : WatchSpec → Option WatchHandle → Bool
handle_serves spec none = false
handle_serves spec (some x) = same_watch_spec x.spec spec

abbrev pub ref_serves : WatchSpec → Option (Option ℕ) → WatchManager → Bool
ref_serves spec (some (some h)) m = handle_serves spec (lookup h m.handles)
ref_serves spec _ m = false

unfoldable pub serves : ℤ → WatchSpec → WatchManager → Bool
serves id spec m = ref_serves spec (lookup id m.active) m && not (is_degraded id m)

pub record Creation : Type 0 where
  pub create : List (ℤ × WatchSpec)
  pub gen : ℕ

-- `create[id]` gets a new generation, unless the watcher there serves.
abbrev pub create_one : Bool → ℤ → WatchSpec → Creation → Creation
create_one true id spec c = c
create_one false id spec c = record {
  create = insert id (record spec { generation = u64 (c.gen + 1) }) c.create;
  gen = u64 (c.gen + 1);
}

unfoldable pub to_create : WatchManager → List (ℤ × WatchSpec) → Creation → Creation
to_create m [] c = c
to_create m ((id, spec) ∷ more) c = to_create m more (create_one (serves id spec m) id spec c)

-- The first section, of an open manager.
unfoldable pub begin : List (ℤ × WatchSpec) → WatchManager → WatchManager × List (ℤ × WatchSpec)
unfolding to_create
begin desired m =
    let c = to_create m desired (record { create = []; gen = m.next_gen }) in
    (record m { next_gen = c.gen }, c.create)

abbrev pub watches_events : String → Bool
watches_events mode = mode == "event" || mode == "hybrid"

-- The error of `newHandle`, if any; the handle of a failure is unreachable afterwards.
unfoldable pub handle_error : GoText → WatchHost → WatchSpec → Option WatchError
handle_error go host spec =
    let parent = go.file_dir spec.view_source in
    or_error (host.check_source spec.view_source) (
      if watches_events spec.mode
      then or_error host.new_watcher (
          or_error (if parent == spec.view_source then none else host.add parent)
            (host.add_tree spec.view_source))
      else none)

abbrev pub new_handle : WatchSpec → WatchManager → WatchManager
new_handle spec m = record m {
  handles =
      insert m.next_handle
        (record { spec = spec; cancelled = false; started = false; timer = none }) m.handles;
  next_handle = m.next_handle + 1;
}

abbrev pub refs : List (ℤ × ℕ) → List (Option ℕ)
refs prepared = map (λ (x : ℤ × ℕ). some x.1) prepared

pub record Prepared : Type 0 where
  pub manager : WatchManager
  pub handles : List (ℤ × ℕ)
  pub failed : Option (ℤ × WatchError)

-- The loop of `newHandle` over what is to be created, between the sections.
unfoldable pub prepare :
    GoText → WatchHost → List (ℤ × WatchSpec) → List (ℤ × ℕ) → WatchManager → Prepared
unfolding handle_error stop_all publish_any
prepare go host [] prepared m = record { manager = m; handles = prepared; failed = none }
prepare go host ((id, spec) ∷ more) prepared m =
    let rest = prepare go host more (insert id m.next_handle prepared) (new_handle spec m) in
    elim (handle_error go host spec) [
      | some err ↦ record {
        manager = publish_any id err false (stop_all (refs prepared) m);
        handles = prepared;
        failed = some (id, err);
      }
      | none ↦ rest
    ]

-- The watchers of the second section: those that are to stand, and those to stop.
pub record Swap : Type 0 where
  pub next : List (ℤ × Option ℕ)
  pub stopped : List (Option ℕ)
  pub broke : Bool

abbrev pub keep : ℤ → Option ℕ → Swap → Swap
keep id current s = record s { next = insert id current s.next }

-- An active watcher that is asked for and has no replacement. Reading the specification of nil panics.
abbrev pub keep_same : WatchManager → ℤ → WatchSpec → Option ℕ → Swap → Swap
keep_same m id spec none s = record s { broke = true }
keep_same m id spec (some h) s =
    if handle_serves spec (lookup h m.handles) && not (is_degraded id m)
    then keep id (some h) s
    else s

abbrev pub replace_current : WatchManager → ℤ → WatchSpec → Option ℕ → Option ℕ → Swap → Swap
replace_current m id spec current (some ready) s = record s {
  next = insert id (some ready) s.next;
  stopped = s.stopped ++ (current ∷ []);
}
replace_current m id spec current none s = keep_same m id spec current s

abbrev pub swap_wanted : WatchManager → ℤ → Option ℕ → Option WatchSpec → Option ℕ → Swap → Swap
swap_wanted m id current none ready s = record s { stopped = s.stopped ++ (current ∷ []) }
swap_wanted m id current (some spec) ready s = replace_current m id spec current ready s

abbrev pub swap_one :
    WatchManager → ℤ → Option ℕ → Option WatchError → Option WatchSpec → Option ℕ → Swap → Swap
swap_one m id current (some err) asked ready s = keep id current s
swap_one m id current none asked ready s = swap_wanted m id current asked ready s

-- The loop over `m.active`.
unfoldable pub swap_active :
    WatchManager → Wanted → List (ℤ × ℕ) → List (ℤ × Option ℕ) → Swap → Swap
swap_active m w prepared [] s = s
swap_active m w prepared ((id, current) ∷ more) s =
    swap_active m w prepared more
      (swap_one m id current (lookup id w.invalid) (lookup id w.desired) (lookup id prepared) s)

-- The loop over what is asked for: `next[id] = prepared[id]`, which is nil where nothing is prepared.
abbrev pub fill_one :
    List (ℤ × ℕ) → ℤ → Option (Option ℕ) → List (ℤ × Option ℕ) → List (ℤ × Option ℕ)
fill_one prepared id (some h) next = next
fill_one prepared id none next = insert id (lookup id prepared) next

unfoldable pub fill_missing :
    List (ℤ × ℕ) → List (ℤ × WatchSpec) → List (ℤ × Option ℕ) → List (ℤ × Option ℕ)
fill_missing prepared [] next = next
fill_missing prepared ((id, spec) ∷ more) next =
    fill_missing prepared more (fill_one prepared id (lookup id next) next)

abbrev pub note_invalid : List (ℤ × WatchError) → List (ℤ × WatchError) → List (ℤ × WatchError)
note_invalid [] errors = errors
note_invalid ((id, err) ∷ more) errors = note_invalid more (insert id err errors)

module _ {V : Type 0} where
  abbrev pub clear_one : Option WatchError → ℤ → List (ℤ × V) → List (ℤ × V)
  clear_one (some err) id m = m
  clear_one none id m = delete id m

  -- `delete` for each job asked for that is not refused.
  unfoldable pub clear_valid :
      List (ℤ × WatchError) → List (ℤ × WatchSpec) → List (ℤ × V) → List (ℤ × V)
  clear_valid invalid [] m = m
  clear_valid invalid ((id, spec) ∷ more) m =
      clear_valid invalid more (clear_one (lookup id invalid) id m)

-- `start`: the goroutines of a handle.
abbrev pub start_found : ℕ → Option WatchHandle → WatchManager → WatchManager
start_found h none m = m
start_found h (some x) m = record m { handles = insert h (record x { started = true }) m.handles }

unfoldable pub start_all : List (ℤ × ℕ) → WatchManager → WatchManager
start_all [] m = m
start_all ((id, h) ∷ more) m = start_all more (start_found h (lookup h m.handles) m)

-- What the second section writes.
abbrev pub adopt : Wanted → List (ℤ × ℕ) → Swap → WatchManager → WatchManager
adopt w prepared s m = record m {
  active = fill_missing prepared w.desired s.next;
  errors = clear_valid w.invalid w.desired (note_invalid w.invalid m.errors);
  degraded = clear_valid w.invalid w.desired m.degraded;
  panicked = s.broke;
}

unfoldable pub swaps : Wanted → List (ℤ × ℕ) → WatchManager → Swap
unfolding swap_active
swaps w prepared m =
    swap_active m w prepared m.active (record { next = []; stopped = []; broke = m.panicked })

-- The second section and what follows it, of an open manager.
unfoldable pub publish_set : Wanted → List (ℤ × ℕ) → WatchManager → WatchManager
unfolding swaps start_all stop_all
publish_set w prepared m =
    let s = swaps w prepared m in start_all prepared (stop_all s.stopped (adopt w prepared s m))

pub data ReconcileError : Type 0 where
  is_closed : ReconcileError
  not_created : ℤ → WatchError → ReconcileError
  refused : List ℤ → ReconcileError

abbrev pub refused_jobs : List (ℤ × WatchError) → Option ReconcileError
refused_jobs [] = none
refused_jobs ((id, err) ∷ more) =
    some (refused (map (λ (x : ℤ × WatchError). x.0) ((id, err) ∷ more)))

unfoldable pub finish : Wanted → List (ℤ × ℕ) → WatchManager → WatchManager × Option ReconcileError
unfolding publish_set stop_all
finish w prepared m =
    if m.closed
    then (stop_all (refs prepared) m, some is_closed)
    else (publish_set w prepared m, refused_jobs w.invalid)

-- The parts behind the first section; `between` is what other goroutines do before the second one.
unfoldable pub conclude :
    Wanted → (WatchManager → WatchManager) → Prepared → WatchManager × Option ReconcileError
unfolding finish
conclude w between p = elim p.failed [
  | some (id, err) ↦ (p.manager, some (not_created id err))
  | none ↦ finish w p.handles (between p.manager)
]

unfoldable pub reconcile_wanted :
    GoText
    → WatchHost
    → Wanted
    → (WatchManager → WatchManager)
    → WatchManager
    → WatchManager × Option ReconcileError
unfolding begin prepare conclude
reconcile_wanted go host w between m =
    if m.closed
    then (m, some is_closed)
    else (let (m', create) = begin w.desired m in conclude w between (prepare go host create [] m'))

unfoldable pub reconcile :
    GoText
    → WatchHost
    → List Job
    → (WatchManager → WatchManager)
    → WatchManager
    → WatchManager × Option ReconcileError
unfolding wanted reconcile_wanted
reconcile go host jobs between m =
    reconcile_wanted go host (wanted go host jobs (record { desired = []; invalid = [] })) between m

-- The handles of the active set.
abbrev pub active_refs : List (ℤ × Option ℕ) → List (Option ℕ)
active_refs active = map (λ (x : ℤ × Option ℕ). x.1) active

unfoldable pub close : WatchManager → WatchManager
unfolding stop_all
close m =
    if m.closed
    then m
    else stop_all (active_refs m.active) (record m { closed = true; active = [] })

-- `Active`
unfoldable pub has_watcher : ℤ → WatchManager → Bool
has_watcher id m = elim (lookup id m.active) [ none ↦ false | some h ↦ true ]
