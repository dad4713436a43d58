-- ===== src/PersistentScheduler/Tests.antt =====
-- A job whose plan does not compile beside a file of it and one of a job that is gone.
use sync_bridge.PersistentScheduler.Orphans.{reconcile-spares}
use sync_bridge.PersistentScheduler.{
  SystemHost, Applied, reconcile, is_persistent, apply_jobs, apply_one, doomed, orphans, ids_of,
  found_names, remove_all, remove_job, remove_cron, remove_systemd,
}
use sync_bridge.Base.{
  List, ℤ, if◌then◌else◌, ◌≡◌, refl, none, some, [], ◌∷◌, true, false, ◌++◌, ℕ, elem, ◌+◌, pos,
  int_keyed, ◌==◌, string_keyed,
}
use sync_bridge.Job.{system_owner, Job}
use sync_bridge.Scheduler.Tests.{nightly}

abbrev plain_host : SystemHost ℕ
plain_host = record {
  compile = λ job request s. (s, none);
  install = λ plan s. (s, none);
  replace = λ path content s. (s, false);
  remove = λ path s. (s + 1, false);
  stat = λ path s. false;
  run = λ argv s. (s, false);
  read_dir = λ path s.
      if path == "/etc/cron.d" then "syncbridge-main-1" ∷ "syncbridge-main-2" ∷ [] else [];
  itoa = λ id. "1";
  format_uint = λ n. "3";
  atoi = λ text. some (if text == "1" then pos 1 else pos 2);
  trim_space = λ text. text;
  trim_slashes = λ text. text;
  trim_suffix = λ text suffix. text;
  trim_prefix = λ text prefix. if text == "syncbridge-main-1" then "1" else "2";
}

abbrev owned : Job
owned = record (nightly 3) { scheduler_owner = system_owner }

abbrev start : Applied plain_host "main"
start = record { host_state = 0; desired = []; preserve = []; failed = false }

-- Only the files of the second job are removed, each counting one.
removes : reconcile plain_host "main" (owned ∷ []) 0 ≡ (3, true)
unfolding reconcile apply_jobs is_persistent apply_one doomed orphans ids_of found_names remove_all
    remove_job remove_cron remove_systemd elem
removes = refl

reconcile-spares_example :
    (a : Applied plain_host "main") × (ids : List ℤ) × (a
      ≡ apply_jobs plain_host "main"
          ([] ++ (owned ∷ []))
          (record { host_state = 0; desired = []; preserve = []; failed = false }))
    × ((reconcile plain_host "main" ([] ++ (owned ∷ [])) 0).0
        ≡ (remove_all plain_host "main" ids a.host_state).0)
    × (elem (pos 1) ids ≡ false)
unfolding is_persistent
reconcile-spares_example = reconcile-spares plain_host "main" [] [] owned 0 refl
