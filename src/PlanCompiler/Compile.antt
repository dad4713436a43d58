-- ===== src/PlanCompiler/Compile.antt =====
-- `validateIdentity`, `compileAction`, `compileSync` and `Compile` of execution_plan.go.
use sync_bridge.Job.{script_action, command_action, sync_action, fixed, script_owner}
use sync_bridge.PlanCompiler.Patterns.{is_account_name, has_nul}
use sync_bridge.PlanCompiler.Argv.{sync_argv}
use sync_bridge.PlanCompiler.Capabilities.{host_tools}
use sync_bridge.Text.{GoText}
use sync_bridge.PlanCompiler.Checks.{
  inspect_canonical_path, validate_sync_action_options, path_within, validate_argv,
}
use sync_bridge.Job.{ActionType, Identity, IdentityMode, Job, Action, SyncAction, script_owner}
use sync_bridge.PlanCompiler.Types.{
  HostPathInfo, HostInspector, HostUser, HostGroup, PlanText, CapabilityReport, PlanError,
  PlanCompiler, owner_of_no_script, bad_fixed_identity, same_paths, bad_script, command_identity,
  user_mismatch, dest_in_source, owner_is_root, group_mismatch, source_in_dest, bad_command,
  no_owner_account, no_source_directory, no_owner_group, dest_no_directory, source_empty,
  bad_identity_mode, sync_identity, unknown_action,
}
use sync_bridge.Base.{
  ◌>>◌, ◌>>=◌, none, some, [], Option, List, ◌∷◌, ℤ, String, Bool, Result, ◌&&◌, false, true, not,
  ◌==◌, refuse_if, int_keyed, string_keyed, ◌||◌, pos, int_ltb, ok, failure, if◌then◌else◌,
}

abbrev pub is_script : HostPathInfo → Bool
is_script info = info.exists && info.regular && info.executable && info.has_shebang

abbrev pub user_with_uid : ℤ → Option HostUser → Bool
user_with_uid uid none = false
user_with_uid uid (some user) = user.uid == uid && not (user.name == "")

abbrev pub group_with_gid : ℤ → Option HostGroup → Bool
group_with_gid gid none = false
group_with_gid gid (some group) = group.gid == gid && not (group.name == "")

abbrev pub is_user : String → ℤ → Option HostUser → Bool
is_user name uid none = false
is_user name uid (some user) = user.name == name && user.uid == uid

abbrev pub is_group : String → ℤ → Option HostGroup → Bool
is_group name gid none = false
is_group name gid (some group) = group.name == name && group.gid == gid

abbrev pub is_script_action : ActionType → Bool
is_script_action script_action = true
is_script_action _ = false

unfoldable pub validate_script_owner :
    GoText → PlanText → HostInspector → Job → Result PlanError Identity
validate_script_owner go text host job = do
  refuse_if (not (is_script_action job.action.type)) owner_of_no_script
  info ← inspect_canonical_path go host job.action.script_path
  refuse_if (not (is_script info)) bad_script
  refuse_if (info.uid == pos 0 || info.gid == pos 0) owner_is_root
  refuse_if (not (user_with_uid info.uid (host.lookup_user (text.itoa info.uid)))) no_owner_account
  refuse_if (not (group_with_gid info.gid (host.lookup_group (text.itoa info.gid)))) no_owner_group
  ok (record { mode = script_owner; user = ""; uid = pos 0; group = ""; gid = pos 0 })

abbrev pub is_fixed_invalid : Identity → Bool
is_fixed_invalid i =
    not (is_account_name i.user)
    || not (is_account_name i.group)
    || int_ltb i.uid (pos 0)
    || int_ltb i.gid (pos 0)

unfoldable pub validate_fixed : HostInspector → Identity → Result PlanError Identity
validate_fixed host i = do
  refuse_if (is_fixed_invalid i) bad_fixed_identity
  refuse_if (not (is_user i.user i.uid (host.lookup_user i.user))) user_mismatch
  refuse_if (not (is_group i.group i.gid (host.lookup_group i.group))) group_mismatch
  ok i

unfoldable pub validate_identity :
    GoText → PlanText → HostInspector → Job → Result PlanError Identity
validate_identity go text host job = elim job.identity.mode [
  | script_owner ↦ validate_script_owner go text host job
  | fixed ↦ validate_fixed host job.identity
  | _ ↦ failure bad_identity_mode
]

-- The arguments, and the paths of source, destination and of the source that must not be empty.
pub record Compiled : Type 0 where
  pub argv : List String
  pub source_path : String
  pub destination_path : String
  pub non_empty_source_dir : String

abbrev pub is_fixed : IdentityMode → Bool
is_fixed fixed = true
is_fixed _ = false

unfoldable pub compile_sync :
    GoText → PlanText → HostInspector → SyncAction → Bool → Result PlanError Compiled
compile_sync go text host a dry_run = do
  validate_sync_action_options go a
  source ← inspect_canonical_path go host a.source
  destination ← inspect_canonical_path go host a.dest
  refuse_if (source.canonical_path == destination.canonical_path) same_paths
  refuse_if (path_within source.canonical_path destination.canonical_path) dest_in_source
  refuse_if (path_within destination.canonical_path source.canonical_path) source_in_dest
  refuse_if (not source.exists || not source.directory) no_source_directory
  refuse_if (destination.exists && not destination.directory) dest_no_directory
  args ← sync_argv go text a dry_run
  refuse_if (args.1 && source.empty) source_empty
  validate_argv args.0
  ok (record {
    argv = args.0;
    source_path = a.source;
    destination_path = a.dest;
    non_empty_source_dir = if args.1 then a.source else "";
  })

unfoldable pub compile_script : GoText → HostInspector → Action → Result PlanError Compiled
compile_script go host action = do
  info ← inspect_canonical_path go host action.script_path
  refuse_if (not (is_script info)) bad_script
  validate_argv (action.script_path ∷ action.script_args)
  ok (record {
    argv = action.script_path ∷ action.script_args;
    source_path = action.script_path;
    destination_path = "";
    non_empty_source_dir = "";
  })

unfoldable pub compile_command :
    GoText → CapabilityReport → Action → Identity → Result PlanError Compiled
compile_command go capabilities action identity = do
  refuse_if (not (is_fixed identity.mode)) command_identity
  refuse_if (go.trim_space action.command == "" || has_nul action.command) bad_command
  tools ← host_tools go capabilities
  ok (record {
    argv = tools.shell ∷ "-c" ∷ action.command ∷ [];
    source_path = "";
    destination_path = "";
    non_empty_source_dir = "";
  })

unfoldable pub compile_action :
    GoText → PlanText → PlanCompiler → Action → Identity → Bool → Result PlanError Compiled
compile_action go text c action identity dry_run = elim action.type [
  | script_action ↦ compile_script go c.inspector action
  | command_action ↦ compile_command go c.capabilities action identity
  | sync_action ↦
      refuse_if (not (is_fixed identity.mode)) sync_identity
      >> compile_sync go text c.inspector action.sync dry_run
  | _ ↦ failure unknown_action
]
