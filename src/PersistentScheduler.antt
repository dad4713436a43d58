-- ===== src/PersistentScheduler.antt =====
-- cmd/syncbridge/persistent_scheduler.go over any host. An operation of the host takes a path of the host
-- and answers whether it failed.
use sync_bridge.RunService.State.{system_origin}
use sync_bridge.PlanCompiler.Types.{RunRequest, ExecutionPlan}
use Prim.Native.String.{◌++◌ as ◌<>◌}
use text.Mathlib.Text.{starts_with}
use sync_bridge.Job.{
  cron_trigger, watch_trigger, manual_trigger, other_trigger, system_owner, Job, Trigger,
  SchedulerOwner, job_watch_source,
}
use sync_bridge.Base.{
  ◌≡◌, refl, none, some, [], ◌∷◌, true, false, List, Option, String, Bool, ℤ, if◌then◌else◌, ◌++◌,
  ◌||◌, int_ltb, ◌&&◌, elem, ℕ, pos, not, int_keyed,
}
mod Orphans
mod Tests

pub record SystemHost (S : Type 0) : Type 0 where
  pub compile : Job → RunRequest → S → S × Option ExecutionPlan
  pub install : ExecutionPlan → S → S × Option String
  pub replace : String → String → S → S × Bool
  pub remove : String → S → S × Bool
  pub stat : String → S → Bool
  pub run : List String → S → S × Bool
  pub read_dir : String → S → List String
  pub itoa : ℤ → String
  pub format_uint : ℕ → String
  pub atoi : String → Option ℤ
  pub trim_space : String → String
  pub trim_slashes : String → String
  pub trim_suffix : String → String → String
  pub trim_prefix : String → String → String

module _ {S : Type 0} (host : SystemHost S) (instance_id : String) where
  unfoldable pub persistent_base : ℤ → String
  persistent_base id = "syncbridge-" <> instance_id <> "-" <> host.itoa id

  -- The next operation, unless this one failed.
  abbrev pub unless_failed : S × Bool → (S → S × Bool) → S × Bool
  unless_failed (s, true) next = (s, true)
  unless_failed (s, false) next = next s

  unfoldable pub remove_cron : String → S → S × Bool
  remove_cron base s = host.remove ("/etc/cron.d/" <> base) s

  abbrev pub path_unit : String → String
  path_unit base = "/etc/systemd/system/" <> base <> ".path"

  abbrev pub service_unit : String → String
  service_unit base = "/etc/systemd/system/" <> base <> ".service"

  abbrev pub reload : Bool → S → S × Bool
  reload existed s =
      if existed
      then host.run ("/usr/bin/env" ∷ "systemctl" ∷ "daemon-reload" ∷ []) s
      else (s, false)

  abbrev pub disabled : Bool → String → S → S
  disabled existed base s =
      if existed
      then (host.run ("/usr/bin/env" ∷ "systemctl" ∷ "disable" ∷ "--now" ∷ (base <> ".path") ∷ [])
          s).0
      else s

  unfoldable pub remove_systemd : String → S → S × Bool
  remove_systemd base s =
      let existed = host.stat (path_unit base) s in
      unless_failed (host.remove (path_unit base) (disabled existed base s))
        (λ t. unless_failed (host.remove (service_unit base) t) (reload existed))

  abbrev pub marker : String
  marker = "# syncbridge"

  unfoldable pub remove_job : ℤ → S → S × Bool
  remove_job id s =
      let (t, cron_failed) = remove_cron (persistent_base id) s in
      let (u, unit_failed) = remove_systemd (persistent_base id) t in
      (u, cron_failed || unit_failed)

  abbrev pub cron_content : Job → String → String
  cron_content job wrapper =
      marker
      <> " managed job "
      <> host.itoa job.id
      <> " revision "
      <> host.format_uint job.revision
      <> "\nSHELL=/bin/sh\nPATH=/usr/local/sbin:/usr/local/bin:/usr/sbin:/usr/bin:/sbin:/bin\n"
      <> host.trim_space job.cron
      <> " root "
      <> wrapper
      <> "\n"

  abbrev pub start_limit : Job → String
  start_limit job =
      if int_ltb (pos 0) job.execution.timeout_seconds
      then "TimeoutStartSec=" <> host.itoa job.execution.timeout_seconds <> "s\n"
      else ""

  abbrev pub service_content : Job → String → String
  service_content job wrapper =
      "[Unit]\nDescription=SyncBridge persistent job "
      <> host.itoa job.id
      <> "\n\n[Service]\nType=oneshot\nExecStart="
      <> wrapper
      <> "\nKillMode=control-group\nNoNewPrivileges=yes\n"
      <> start_limit job

  abbrev pub path_content : Job → String → String
  path_content job base =
      "[Unit]\nDescription=SyncBridge persistent watch "
      <> host.itoa job.id
      <> "\n\n[Path]\nPathModified="
      <> host.trim_slashes (job_watch_source job)
      <> "\nUnit="
      <> base
      <> ".service\n\n[Install]\nWantedBy=multi-user.target\n"

  -- The units of a watch, and their activation.
  abbrev pub apply_watch : Job → String → String → S → S × Bool
  apply_watch job base wrapper s =
      unless_failed
        (host.replace (service_unit base) (service_content job wrapper) (remove_cron base s).0)
        (λ t. unless_failed (host.replace (path_unit base) (path_content job base) t) (λ u.
          unless_failed (host.run ("/usr/bin/env" ∷ "systemctl" ∷ "daemon-reload" ∷ []) u) (
            host.run ("/usr/bin/env" ∷ "systemctl" ∷ "enable" ∷ "--now" ∷ (base <> ".path") ∷ []))))

  unfoldable pub apply_job : Job → String → S → S × Bool
  apply_job job wrapper s =
      let base = persistent_base job.id in
      elim job.trigger [
        | cron_trigger ↦
            unless_failed (remove_systemd base s)
              (host.replace ("/etc/cron.d/" <> base) (cron_content job wrapper))
        | watch_trigger ↦ apply_watch job base wrapper s
        | _ ↦ (s, true)
      ]

  -- The loop over the jobs: those that stand, those whose files are left, and whether there was an error.
  pub record Applied : Type 0 where
    pub host_state : S
    pub desired : List ℤ
    pub preserve : List ℤ
    pub failed : Bool

  abbrev pub is_triggered : Trigger → Bool
  is_triggered cron_trigger = true
  is_triggered watch_trigger = true
  is_triggered _ = false

  abbrev pub is_system : SchedulerOwner → Bool
  is_system system_owner = true
  is_system _ = false

  unfoldable pub is_persistent : Job → Bool
  is_persistent job = is_system job.scheduler_owner && job.enabled && not job.needs_review

  abbrev pub preserved : ℤ → S → Applied → Applied
  preserved id s a = record a { host_state = s; preserve = id ∷ a.preserve; failed = true }

  abbrev pub applied : ℤ → S × Bool → Applied → Applied
  applied id (s, true) a = preserved id s a
  applied id (s, false) a = record a { host_state = s; desired = id ∷ a.desired }

  abbrev pub after_installation : Job → S × Option String → Applied → Applied
  after_installation job (s, none) a = preserved job.id s a
  after_installation job (s, some wrapper) a = applied job.id (apply_job job wrapper s) a

  abbrev pub after_compilation : Job → S × Option ExecutionPlan → Applied → Applied
  after_compilation job (s, none) a = preserved job.id s a
  after_compilation job (s, some plan) a = after_installation job (host.install plan s) a

  abbrev pub persistent_request : Job → RunRequest
  persistent_request job = record {
    run_id = "persistent-" <> host.itoa job.id <> "-" <> host.format_uint job.revision;
    job_id = job.id;
    revision = job.revision;
    origin = system_origin;
    dry_run = false;
    requested_at = 0;
  }

  unfoldable pub apply_one : Job → Applied → Applied
  apply_one job a =
      if is_triggered job.trigger
      then after_compilation job (host.compile job (persistent_request job) a.host_state) a
      else preserved job.id a.host_state a

  unfoldable pub apply_jobs : List Job → Applied → Applied
  apply_jobs [] a = a
  apply_jobs (job ∷ more) a = apply_jobs more (if is_persistent job then apply_one job a else a)

  -- The job that the name of a file stands for.
  abbrev pub id_of : String → Option ℤ
  id_of name =
      let prefix = "syncbridge-" <> instance_id <> "-" in
      if starts_with name prefix
      then host.atoi
          (host.trim_suffix (host.trim_suffix (host.trim_prefix name prefix) ".service") ".path")
      else none

  abbrev pub with_id : Option ℤ → List ℤ → List ℤ
  with_id none ids = ids
  with_id (some id) ids = if elem id ids then ids else id ∷ ids

  unfoldable pub ids_of : List String → List ℤ
  ids_of [] = []
  ids_of (name ∷ more) = with_id (id_of name) (ids_of more)

  -- The identifiers whose files are removed.
  unfoldable pub orphans : List ℤ → List ℤ → List ℤ → List ℤ
  orphans desired preserve [] = []
  orphans desired preserve (id ∷ more) =
      let rest = orphans desired preserve more in
      if elem id desired || elem id preserve then rest else id ∷ rest

  unfoldable pub remove_all : List ℤ → S → S × Bool
  remove_all [] s = (s, false)
  remove_all (id ∷ more) s =
      let (t, failed) = remove_job id s in
      let (u, later) = remove_all more t in (u, failed || later)

  unfoldable pub found_names : S → List String
  found_names s = host.read_dir "/etc/cron.d" s ++ host.read_dir "/etc/systemd/system" s

  -- The files that the loop over the jobs leaves to be removed.
  unfoldable pub doomed : Applied → List ℤ
  doomed a = orphans a.desired a.preserve (ids_of (found_names a.host_state))

  unfoldable pub reconcile : List Job → S → S × Bool
  reconcile jobs s =
      let a =
        apply_jobs jobs (record { host_state = s; desired = []; preserve = []; failed = false }) in
      let (t, failed) = remove_all (doomed a) a.host_state in (t, a.failed || failed)
