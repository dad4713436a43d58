-- ===== src/PlanCompiler/Tests.antt =====
-- A mirror of two directories of one host, and a bad bandwidth.
use sync_bridge.PlanCompiler.Coherence.{IsCoherent, inspect_path-IsCoherent}
use sync_bridge.PlanCompiler.Inspector.{
  HostRunner, inspect_path, single_output_line, stat_fields, number, shebang_of, empty_of,
}
use sync_bridge.PlanCompiler.Toolchain.{tools_checked-clean, host_tools-details}
use sync_bridge.PlanCompiler.Plan.{
  compile, host_launcher_environment, check_request, check_directory,
}
use sync_bridge.Text.{split_csv}
use sync_bridge.PlanCompiler.Admission.{OwnedScript, HostAccount, validate_identity-admitted}
use sync_bridge.PlanCompiler.Bounds.{IsWithin, compile_execution_bounds-bounds}
use sync_bridge.PlanCompiler.Setting.{compile_environment-entries, compile_environment-reserved}
use sync_bridge.PlanCompiler.Syncing.{sync_argv-dry_run, Below, Guards, compile_sync-safe}
use sync_bridge.PlanCompiler.Patterns.{
  any_char, is_account_name, cut, is_environment_name, is_bandwidth_limit, all_chars, trim_last,
  is_instance_id, is_run_id,
}
use sync_bridge.PlanCompiler.Capabilities.{
  host_tools, available_capability, tool_names, is_clean_path, detail, tools_checked, by_code,
  require, missing, tools_from, tools_of,
}
use sync_bridge.PlanCompiler.Environment.{
  compile_environment, add_entries, reserved, base_values, sorted_names, insert_name, assignments,
}
use sync_bridge.PlanCompiler.Checks.{
  path_within, Bounds, compile_execution_bounds, validate_sync_action_options, any_dash,
  directory_arg, inspect_canonical_path, validate_absolute_canonical_path, validate_argv, any_nul,
}
use sync_bridge.PlanCompiler.Argv.{sync_argv, rsync_argv, rsync_options, rsync_settings}
use sync_bridge.PlanCompiler.Compile.{
  Compiled, compile_sync, validate_identity, validate_fixed, compile_action,
}
use sync_bridge.Job.{SyncAction, Job, ExecutionPolicy, sync_action}
use sync_bridge.PlanCompiler.Types.{
  HostInspector, PlanText, HostToolPaths, CapabilityReport, PlanCompiler, RunRequest, HostPathInfo,
  ExecutionPlan,
}
use sync_bridge.Base.{
  ◌≡◌, refl, some, [], ◌∷◌, String, List, elem, true, pos, false, ◌≢◌, refuse_if, ◌&&◌, times64,
  not, string_keyed, lookup, ◌*◌, ◌⊎◌, second, ◌<◌, insert, ◌≤◌, ok,
}
use sync_bridge.RunService.State.{manual_origin}
use sync_bridge.PlanCompiler.Capabilities.{details}
use sync_bridge.Scheduler.Tests.{nightly}
use sync_bridge.WatchManager.Tests.{plain_text}

abbrev directory_at : String → HostPathInfo
directory_at path = record {
  canonical_path = path;
  exists = true;
  regular = false;
  directory = true;
  executable = true;
  has_shebang = false;
  empty = false;
  uid = pos 0;
  gid = pos 0;
}

abbrev host : HostInspector
host = record {
  inspect_path = λ path. some (directory_at path);
  lookup_user =
      λ name. some (record { name = "u"; uid = pos 7; gid = pos 8; home = "/"; shell = "/bin/sh" });
  lookup_group = λ name. some (record { name = "g"; gid = pos 8 });
}

abbrev texts : PlanText
texts = record { itoa = λ n. "7"; format_uint = λ n. "3"; now = 5 }

abbrev mirror : SyncAction
mirror = record {
  engine = "rsync";
  source = "/data";
  dest = "/database";
  mode = "mirror";
  compare_by = "";
  bwlimit = "10MiB";
  backup = false;
  backup_keep = pos 0;
  max_del = pos 0;
  skip_new = false;
  sys_backup = false;
  exclude = "cache";
}

abbrev tools : HostToolPaths
tools = record {
  profile = "gnu";
  shell = "/bin/sh";
  test = "/bin/test";
  readlink = "/bin/readlink";
  stat = "/bin/stat";
  head = "/bin/head";
  find = "/bin/find";
  getent = "/bin/getent";
  setpriv = "/bin/setpriv";
  env = "/bin/env";
  mkdir = "/bin/mkdir";
  chown = "/bin/chown";
  chmod = "/bin/chmod";
  mktemp = "/bin/mktemp";
  tee = "/bin/tee";
  sync = "/bin/sync";
  mv = "/bin/mv";
  rm = "/bin/rm";
  rmdir = "/bin/rmdir";
  date = "/bin/date";
}

abbrev report : CapabilityReport
report =
    available_capability "host_namespace" []
    ∷ available_capability "host_pid_1" []
    ∷ available_capability "host_root" []
    ∷ available_capability "identity_drop" []
    ∷ available_capability "account_lookup" []
    ∷ available_capability "shell" []
    ∷ available_capability "rsync" []
    ∷ available_capability "host_toolchain" (details tools)
    ∷ []

abbrev compiler : PlanCompiler
compiler = record { instance_id = "main"; capabilities = report; inspector = host }

abbrev synced : Job
synced = record (nightly 3) {
  action = record {
    type = sync_action;
    script_path = "";
    script_args = [];
    command = "";
    sync = mirror;
  };
}

abbrev request : RunRequest
request = record {
  run_id = "r1";
  job_id = pos 1;
  revision = 3;
  origin = manual_origin;
  dry_run = true;
  requested_at = 0;
}

abbrev arguments : List String
arguments =
    "rsync" ∷ "-a" ∷ "--info=progress2,stats2" ∷ "--human-readable" ∷ "--delete" ∷ "--bwlimit"
    ∷ "10Mi" ∷ "--exclude" ∷ "cache" ∷ "--dry-run" ∷ "--itemize-changes" ∷ "--" ∷ "/data/"
    ∷ "/database/" ∷ []

abbrev compiled_mirror : Compiled
compiled_mirror = record {
  argv = arguments;
  source_path = "/data";
  destination_path = "/database";
  non_empty_source_dir = "/data";
}

mirror-arguments : sync_argv plain_text texts mirror true ≡ ok (arguments, true)
unfolding sync_argv validate_sync_action_options refuse_if any_char any_dash split_csv
    is_bandwidth_limit rsync_argv rsync_options rsync_settings trim_last directory_arg
mirror-arguments = refl

compiled : compile_sync plain_text texts host mirror true ≡ ok compiled_mirror
unfolding compile_sync sync_argv validate_sync_action_options refuse_if any_char any_dash split_csv
    is_bandwidth_limit rsync_argv rsync_options rsync_settings trim_last directory_arg
    inspect_canonical_path validate_absolute_canonical_path path_within validate_argv any_nul
compiled = refl

compile_sync-safe_example :
    (source : HostPathInfo) × (destination : HostPathInfo) × (host.inspect_path "/data"
      ≡ some source)
    × (host.inspect_path "/database" ≡ some destination)
    × (mirror.source ≢ mirror.dest)
    × (¬ Below "/data" "/database")
    × (¬ Below "/database" "/data")
    × (source.exists ≡ true)
    × (source.directory ≡ true)
    × ((destination.exists && not destination.directory) ≡ false)
    × Guards "mirror" "/data" source.empty compiled_mirror.non_empty_source_dir
compile_sync-safe_example =
    compile_sync-safe plain_text texts host mirror true compiled_mirror compiled

sync_argv-dry_run_example : elem "--dry-run" arguments ≡ true
sync_argv-dry_run_example =
    sync_argv-dry_run plain_text texts mirror (arguments, true) mirror-arguments

abbrev policy : ExecutionPolicy
policy = record {
  working_directory = "";
  environment = [];
  umask = 0;
  timeout_seconds = pos 60;
  stop_grace_seconds = pos 0;
  overlap = "skip";
}

abbrev minute : Bounds
minute = record { timeout = pos 60000000000; stop_grace = pos 10000000000; umask = 18 }

compile_execution_bounds-bounds_example :
    IsWithin (pos 60) (pos 60000000000) (3600 * second) 604800
    × IsWithin (pos 0) (pos 10000000000) (10 * second) 300
    × (0 < 18)
    × (18 ≤ 511)
    × (policy.umask ≡ 0 ⊎ minute.umask ≡ policy.umask)
unfolding compile_execution_bounds refuse_if times64
compile_execution_bounds-bounds_example = compile_execution_bounds-bounds policy minute refl

abbrev with_entry : Job
with_entry = record synced { execution = record policy { environment = "TZ=CET" ∷ [] } }

abbrev variables : List String
variables =
    "LANG=C" ∷ "LC_ALL=C" ∷ "PATH=/usr/local/sbin:/usr/local/bin:/usr/sbin:/usr/bin:/sbin:/bin"
    ∷ "SYNCBRIDGE_DRY_RUN=true" ∷ "SYNCBRIDGE_JOB_ID=7" ∷ "SYNCBRIDGE_JOB_REVISION=3"
    ∷ "SYNCBRIDGE_RUN_ID=r1" ∷ "SYNCBRIDGE_RUN_ORIGIN=manual" ∷ "TZ=CET" ∷ []

environment-made : compile_environment texts with_entry request ≡ ok variables
unfolding compile_environment add_entries base_values cut is_environment_name all_chars any_char
    elem reserved insert refuse_if sorted_names insert_name assignments lookup
environment-made = refl

compile_environment-entries_example : elem "TZ=CET" variables ≡ true
unfolding elem
compile_environment-entries_example =
    compile_environment-entries texts with_entry request variables "TZ=CET" environment-made refl

compile_environment-reserved_example : elem "SYNCBRIDGE_RUN_ID=r1" variables ≡ true
unfolding elem reserved base_values lookup
compile_environment-reserved_example =
    compile_environment-reserved texts with_entry request variables "SYNCBRIDGE_RUN_ID" "r1"
      environment-made refl refl

tools-clean :
    (name : String)
    → elem name tool_names ≡ true
    → is_clean_path plain_text (detail (details tools) name) ≡ true
unfolding tools_checked details lookup
tools-clean name e = tools_checked-clean plain_text (details tools) tool_names name refl e

host_tools-details_example : host_tools plain_text report ≡ ok tools
unfolding by_code
host_tools-details_example = host_tools-details plain_text report tools refl refl tools-clean

abbrev plan : ExecutionPlan
plan = record {
  run_id = "r1";
  job_id = pos 1;
  revision = 3;
  origin = manual_origin;
  dry_run = true;
  requested_at = 5;
  action_type = sync_action;
  command = "";
  sync_engine = "rsync";
  sync_mode = "mirror";
  sync = mirror;
  argv = arguments;
  identity = synced.identity;
  environment = variables;
  working_directory = "/";
  umask = 18;
  timeout = pos 60000000000;
  stop_grace = pos 10000000000;
  wrapper_path = "/var/lib/syncbridge/instances/main/jobs/7/run.sh";
  source_path = "/data";
  destination_path = "/database";
  non_empty_source_dir = "/data";
  host_tools = tools;
  launcher_environment = host_launcher_environment;
}

plan-made : compile plain_text texts compiler with_entry request ≡ ok plan
unfolding compile check_request require missing by_code host_tools tools_from tools_checked tools_of
    details lookup check_directory inspect_canonical_path validate_absolute_canonical_path
    validate_identity validate_fixed is_account_name compile_action compile_sync sync_argv
    validate_sync_action_options refuse_if any_char any_dash split_csv is_bandwidth_limit rsync_argv
    rsync_options rsync_settings trim_last directory_arg path_within validate_argv any_nul
    compile_environment add_entries base_values cut is_environment_name all_chars elem reserved
    insert sorted_names insert_name assignments compile_execution_bounds times64 is_instance_id
    is_run_id
plan-made = refl

validate_identity-admitted_example :
    OwnedScript host synced synced.identity ⊎ HostAccount host synced synced.identity
unfolding validate_identity validate_fixed refuse_if is_account_name
validate_identity-admitted_example =
    validate_identity-admitted plain_text texts host synced synced.identity refl

abbrev shell_host : HostRunner
shell_host = record {
  run = λ argv. some "/data\n";
  split_colon = λ line. "41ed" ∷ "7" ∷ "8" ∷ [];
  atoi = λ text. some (pos 7);
  parse_hex = λ text. some 16877;
}

inspected_data :
    inspect_path shell_host tools "/data"
    ≡ ok (record (directory_at "/data") { executable = true; uid = pos 7; gid = pos 7 })
unfolding inspect_path single_output_line refuse_if any_char trim_last stat_fields number shebang_of
    empty_of
inspected_data = refl

inspect_path-IsCoherent_example :
    IsCoherent (record (directory_at "/data") { executable = true; uid = pos 7; gid = pos 7 })
inspect_path-IsCoherent_example =
    inspect_path-IsCoherent shell_host tools "/data"
      (record (directory_at "/data") { executable = true; uid = pos 7; gid = pos 7 }) inspected_data
