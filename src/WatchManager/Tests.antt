-- ===== src/WatchManager/Tests.antt =====
-- A watch on a directory that is there, and on one whose watcher is degraded.
use sync_bridge.WatchManager.Lost.{reconcile_wanted-loses}
use sync_bridge.Scheduler.{scheduler_eligible}
use sync_bridge.Scheduler.Tests.{nightly}
use sync_bridge.WatchManager.Reconcile.{
  reconcile, wanted, serves, reconcile_wanted, Wanted, begin, prepare, conclude, finish, close,
  handle_error, to_create,
}
use sync_bridge.WatchManager.Spec.{WatchSpec, watch_spec_for, same_watch_spec}
use sync_bridge.WatchManager.State.{
  WatchHost, WatchManager, WatchHandle, degrade, host_failed, is_degraded,
}
use sync_bridge.Text.{GoText, split_csv}
use sync_bridge.Job.{Job, job_watch_source, watch_trigger}
use sync_bridge.Base.{
  ◌≡◌, refl, ◌∷◌, some, pos, [], false, ◌==◌, none, true, string_keyed, lookup, insert, nat_keyed,
}

abbrev watched : Job
watched = record (nightly 3) { trigger = watch_trigger; source = "/data"; watch_mode = "poll" }

abbrev pub plain_text : GoText
plain_text = record {
  trim_space = λ s. s;
  split_comma = λ s. s ∷ [];
  has_dash = λ s. false;
  file_base = λ s. s;
  file_dir = λ s. "/";
  glob_match = λ glob name. glob == name;
  clean = λ s. s;
  rel = λ root path. some path;
}

abbrev good_host : WatchHost
good_host = record {
  resolve_path = λ s. some s;
  check_source = λ s. none;
  new_watcher = none;
  add = λ s. none;
  add_tree = λ s. none;
  stat_is_dir = λ s. some false;
}

abbrev data_spec : WatchSpec
data_spec = record {
  revision = 3;
  generation = 0;
  source = "/data";
  view_source = "/data";
  mode = "poll";
  debounce = pos 10000000000;
  poll = pos 300000000000;
  globs = [];
}

abbrev new_manager : WatchManager
new_manager = record {
  active = [];
  degraded = [];
  errors = [];
  next_gen = 0;
  closed = false;
  handles = [];
  next_handle = 0;
  timers = [];
  next_timer = 0;
  panicked = false;
}

new_manager-creates : (reconcile plain_text good_host (watched ∷ []) (λ n. n) new_manager).1 ≡ none
unfolding reconcile wanted reconcile_wanted begin prepare conclude finish handle_error to_create
    serves lookup insert watch_spec_for scheduler_eligible job_watch_source split_csv
new_manager-creates = refl

abbrev first_handle : WatchHandle
first_handle = record { spec = data_spec; cancelled = false; started = true; timer = none }

abbrev one_handle : WatchManager
one_handle = record new_manager { handles = (0, first_handle) ∷ []; next_handle = 1 }

reconcile_wanted-loses_example :
    let w : Wanted = record { desired = (pos 1, data_spec) ∷ []; invalid = [] } in
    let m : WatchManager = record one_handle { active = (pos 1, some 0) ∷ [] } in
    let result =
      reconcile_wanted plain_text good_host w (degrade (pos 1) 0 (host_failed "gone")) m in
    (result.0.active ≡ (pos 1, none) ∷ [])
    × (result.0.handles ≡ (0, first_handle) ∷ [])
    × (is_degraded (pos 1) result.0 ≡ false)
    × (result.1 ≡ none)
    × ((close result.0).panicked ≡ true)
unfolding serves lookup same_watch_spec
reconcile_wanted-loses_example =
    reconcile_wanted-loses plain_text good_host data_spec (host_failed "gone") one_handle (pos 1) 0
      refl refl
