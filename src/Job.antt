-- ===== src/Job.antt =====
-- cmd/syncbridge/model.go: the persisted job and the types of its fields. A string-backed Go type is
-- a data type of its constants, with a constructor for any other text. `int` is ℤ, an unsigned
-- number is ℕ. Slices are values here, so that `cloneJob` (a deep copy) is the identity.
use sync_bridge.Base.{ℤ, ℕ, String, Bool, true, false, ◌%◌, ◌^◌, List}

pub data ActionType : Type 0 where
  script_action command_action sync_action : ActionType
  other_action : String → ActionType

pub record SyncAction : Type 0 where
  pub engine : String
  pub source : String
  pub dest : String
  pub mode : String
  pub compare_by : String
  pub bwlimit : String
  pub backup : Bool
  pub backup_keep : ℤ
  pub max_del : ℤ
  pub skip_new : Bool
  pub sys_backup : Bool
  pub exclude : String

pub record Action : Type 0 where
  pub type : ActionType
  pub script_path : String
  pub script_args : List String
  pub command : String
  pub sync : SyncAction

pub data IdentityMode : Type 0 where
  script_owner fixed : IdentityMode
  other_identity : String → IdentityMode

pub record Identity : Type 0 where
  pub mode : IdentityMode
  pub user : String
  pub uid : ℤ
  pub group : String
  pub gid : ℤ

pub record ExecutionPolicy : Type 0 where
  pub working_directory : String
  pub environment : List String
  pub umask : ℕ
  pub timeout_seconds : ℤ
  pub stop_grace_seconds : ℤ
  pub overlap : String

pub data Trigger : Type 0 where
  manual_trigger cron_trigger watch_trigger : Trigger
  other_trigger : String → Trigger

pub data SchedulerOwner : Type 0 where
  sync_bridge_owner system_owner : SchedulerOwner
  other_owner : String → SchedulerOwner

-- The schema-v2 fields, then the compatibility fields.
pub record Job : Type 0 where
  pub schema_version : ℤ
  pub id : ℤ
  pub revision : ℕ
  pub name : String
  pub enabled : Bool
  pub needs_review : Bool
  pub action : Action
  pub identity : Identity
  pub execution : ExecutionPolicy
  pub trigger : Trigger
  pub scheduler_owner : SchedulerOwner
  pub kind : String
  pub command : String
  pub backend : String
  pub source : String
  pub dest : String
  pub engine : String
  pub mode : String
  pub cron : String
  pub watch_glob : String
  pub watch_mode : String
  pub debounce : ℤ
  pub poll_sec : ℤ
  pub timeout : ℤ
  pub compare_by : String
  pub bwlimit : String
  pub backup : Bool
  pub backup_keep : ℤ
  pub max_del : ℤ
  pub skip_new : Bool
  pub sys_backup : Bool
  pub exclude : String
  pub disabled : Bool
  pub last_run : String
  pub last_stat : String

-- uint64 arithmetic wraps.
abbrev pub u64 : ℕ → ℕ
u64 n = n % 2 ^ 64

abbrev pub is_sync : ActionType → Bool
is_sync sync_action = true
is_sync _ = false

-- `jobWatchSource`
unfoldable pub job_watch_source : Job → String
job_watch_source job = elim job.action.type [
  | sync_action ↦ job.action.sync.source
  | _ ↦ job.source
]
