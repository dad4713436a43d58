-- ===== src/PlanCompiler/Types.antt =====
-- The data of execution_plan.go, the errors of the compiler (one constructor for each message) and the
-- parts of capabilities.go that it reads.
use sync_bridge.RunService.State.{RunOrigin}
use sync_bridge.Base.{List, String, ℤ, ℕ, Bool, Option, Result}
use sync_bridge.Job.{Identity, ActionType, SyncAction}

pub data PlanError : Type 0 where
  bad_instance_id job_id_not_positive not_schema_v2 needs_review_first other_job stale_revision
        bad_run_id bad_origin dry_run_unsupported :
      PlanError
  missing_capabilities : List String → PlanError
  no_toolchain bad_profile : PlanError
  bad_tool_path : String → PlanError
  path_not_canonical path_has_controls inspect_failed path_not_host_canonical : PlanError
  no_working_directory : PlanError
  owner_of_no_script bad_script owner_is_root no_owner_account no_owner_group : PlanError
  bad_fixed_identity user_mismatch group_mismatch bad_identity_mode : PlanError
  argv_empty argv_has_nul : PlanError
  command_identity bad_command sync_identity unknown_action : PlanError
  bad_engine bad_mode bad_compare bad_bwlimit negative_keep keep_without_backup negative_max_del
        max_del_not_mirror sys_backup_not_rsync exclude_has_controls exclude_has_dash :
      PlanError
  same_paths dest_in_source source_in_dest no_source_directory dest_no_directory source_empty :
      PlanError
  bad_entry reserved_name duplicate_name : String → PlanError
  bad_timeout bad_grace bad_umask : PlanError

pub record RunRequest : Type 0 where
  pub run_id : String
  pub job_id : ℤ
  pub revision : ℕ
  pub origin : RunOrigin
  pub dry_run : Bool
  pub requested_at : ℕ

pub record HostToolPaths : Type 0 where
  pub profile : String
  pub shell : String
  pub test : String
  pub readlink : String
  pub stat : String
  pub head : String
  pub find : String
  pub getent : String
  pub setpriv : String
  pub env : String
  pub mkdir : String
  pub chown : String
  pub chmod : String
  pub mktemp : String
  pub tee : String
  pub sync : String
  pub mv : String
  pub rm : String
  pub rmdir : String
  pub date : String

pub record ExecutionPlan : Type 0 where
  pub run_id : String
  pub job_id : ℤ
  pub revision : ℕ
  pub origin : RunOrigin
  pub dry_run : Bool
  pub requested_at : ℕ
  pub action_type : ActionType
  pub command : String
  pub sync_engine : String
  pub sync_mode : String
  pub sync : SyncAction
  pub argv : List String
  pub identity : Identity
  pub environment : List String
  pub working_directory : String
  pub umask : ℕ
  pub timeout : ℤ
  pub stop_grace : ℤ
  pub wrapper_path : String
  pub source_path : String
  pub destination_path : String
  pub non_empty_source_dir : String
  pub host_tools : HostToolPaths
  pub launcher_environment : List String

pub record HostPathInfo : Type 0 where
  pub canonical_path : String
  pub exists : Bool
  pub regular : Bool
  pub directory : Bool
  pub executable : Bool
  pub has_shebang : Bool
  pub empty : Bool
  pub uid : ℤ
  pub gid : ℤ

pub record HostUser : Type 0 where
  pub name : String
  pub uid : ℤ
  pub gid : ℤ
  pub home : String
  pub shell : String

pub record HostGroup : Type 0 where
  pub name : String
  pub gid : ℤ

-- What the host answers during one compilation: `none` is an error.
pub record HostInspector : Type 0 where
  pub inspect_path : String → Option HostPathInfo
  pub lookup_user : String → Option HostUser
  pub lookup_group : String → Option HostGroup

-- strconv and the clock.
pub record PlanText : Type 0 where
  pub itoa : ℤ → String
  pub format_uint : ℕ → String
  pub now : ℕ

-- Code, status, and details.
pub record CapabilityResult : Type 0 where
  pub code : String
  pub available : Bool
  pub details : List (String × String)

abbrev pub CapabilityReport : Type 0
CapabilityReport = List CapabilityResult

pub record PlanCompiler : Type 0 where
  pub instance_id : String
  pub capabilities : CapabilityReport
  pub inspector : HostInspector

-- A check that only fails or goes on.
abbrev pub Checked : Type 0
Checked = Result PlanError (Unit {0})
