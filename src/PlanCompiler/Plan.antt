-- ===== src/PlanCompiler/Plan.antt =====
-- `Compile` of execution_plan.go, of a compiler that is configured.
use sync_bridge.PlanCompiler.Patterns.{is_instance_id, is_run_id}
use sync_bridge.PlanCompiler.Environment.{compile_environment}
use sync_bridge.PlanCompiler.Compile.{validate_identity, compile_action}
use sync_bridge.Text.{GoText}
use sync_bridge.PlanCompiler.Capabilities.{require, host_tools}
use sync_bridge.PlanCompiler.Checks.{inspect_canonical_path, compile_execution_bounds}
use sync_bridge.PlanCompiler.Types.{
  PlanCompiler, PlanText, RunRequest, HostInspector, Checked, bad_instance_id, no_working_directory,
  PlanError, ExecutionPlan, job_id_not_positive, not_schema_v2, needs_review_first, other_job,
  stale_revision, bad_run_id, bad_origin, dry_run_unsupported,
}
use sync_bridge.Job.{Action, Job, is_sync}
use Prim.Native.String.{◌++◌}
use sync_bridge.Base.{
  ◌>>◌, ◌>>=◌, [], List, ◌∷◌, String, Bool, if◌then◌else◌, ℤ, false, ◌==◌, true, ◌&&◌, string_keyed,
  refuse_if, not, ◌||◌, Result, int_ltb, ok, pos, nat_keyed, int_keyed,
}
use sync_bridge.RunService.State.{no_origin, other_origin, RunOrigin}

abbrev pub is_known_origin : RunOrigin → Bool
is_known_origin no_origin = false
is_known_origin (other_origin s) = false
is_known_origin _ = true

abbrev pub engine_codes : Action → List String
engine_codes action =
    if is_sync action.type && action.sync.engine == "rsync"
    then "rsync" ∷ []
    else if is_sync action.type && action.sync.engine == "rclone"
    then "rclone" ∷ []
    else []

abbrev pub required : Action → List String
required action =
    "host_namespace"
    ∷ "host_pid_1"
    ∷ "host_root"
    ∷ "identity_drop"
    ∷ "account_lookup"
    ∷ "shell"
    ∷ "host_toolchain"
    ∷ engine_codes action

-- The guards before the host is asked.
unfoldable pub check_request : PlanCompiler → Job → RunRequest → Checked
check_request c job request = do
  refuse_if (not (is_instance_id c.instance_id)) bad_instance_id
  refuse_if (not (int_ltb (pos 0) job.id)) job_id_not_positive
  refuse_if (not (job.schema_version == pos 2)) not_schema_v2
  refuse_if job.needs_review needs_review_first
  refuse_if (not (request.job_id == pos 0) && not (request.job_id == job.id)) other_job
  refuse_if (not (request.revision == 0) && not (request.revision == job.revision)) stale_revision
  refuse_if (not (is_run_id request.run_id)) bad_run_id
  refuse_if (not (is_known_origin request.origin)) bad_origin
  refuse_if (request.dry_run && not (is_sync job.action.type)) dry_run_unsupported
  ok tt

abbrev pub directory_or_root : String → String
directory_or_root directory = if directory == "" then "/" else directory

unfoldable pub check_directory : GoText → HostInspector → String → Checked
check_directory go host directory = do
  info ← inspect_canonical_path go host directory
  refuse_if (not info.exists || not info.directory) no_working_directory
  ok tt

abbrev pub host_launcher_environment : List String
host_launcher_environment =
    "HOME=/root" ∷ "LANG=C" ∷ "LC_ALL=C" ∷ "LOGNAME=root"
    ∷ "PATH=/usr/local/sbin:/usr/local/bin:/usr/sbin:/usr/bin:/sbin:/bin" ∷ "SHELL=/bin/sh"
    ∷ "TZ=UTC" ∷ "USER=root" ∷ []

abbrev pub wrapper_of : PlanText → String → ℤ → String
wrapper_of text instance_id id =
    "/var/lib/syncbridge/instances/" ++ instance_id ++ "/jobs/" ++ text.itoa id ++ "/run.sh"

unfoldable pub compile :
    GoText → PlanText → PlanCompiler → Job → RunRequest → Result PlanError ExecutionPlan
compile go text c job request = do
  check_request c job request
  require c.capabilities (required job.action)
  tools ← host_tools go c.capabilities
  check_directory go c.inspector (directory_or_root job.execution.working_directory)
  identity ← validate_identity go text c.inspector job
  compiled ← compile_action go text c job.action identity request.dry_run
  environment ← compile_environment text job request
  bounds ← compile_execution_bounds job.execution
  ok (record {
    run_id = request.run_id;
    job_id = job.id;
    revision = job.revision;
    origin = request.origin;
    dry_run = request.dry_run;
    requested_at = if request.requested_at == 0 then text.now else request.requested_at;
    action_type = job.action.type;
    command = job.action.command;
    sync_engine = job.action.sync.engine;
    sync_mode = job.action.sync.mode;
    sync = job.action.sync;
    argv = compiled.argv;
    identity = identity;
    environment = environment;
    working_directory = directory_or_root job.execution.working_directory;
    umask = bounds.umask;
    timeout = bounds.timeout;
    stop_grace = bounds.stop_grace;
    wrapper_path = wrapper_of text c.instance_id job.id;
    source_path = compiled.source_path;
    destination_path = compiled.destination_path;
    non_empty_source_dir = compiled.non_empty_source_dir;
    host_tools = tools;
    launcher_environment = host_launcher_environment;
  })
