-- ===== src/PlanCompiler/Checks.antt =====
-- The checks of execution_plan.go: paths, argv, the options of a sync, bounds and environment.
use Prim.Native.String.{◌++◌}
use text.Mathlib.Text.{starts_with}
use sync_bridge.PlanCompiler.Capabilities.{is_clean_path}
use sync_bridge.PlanCompiler.Patterns.{ends_with, has_nul, any_char, is_bandwidth_limit}
use sync_bridge.Job.{SyncAction, ExecutionPolicy}
use sync_bridge.PlanCompiler.Types.{
  HostInspector, PlanError, HostPathInfo, inspect_failed, path_not_host_canonical, argv_empty,
  bad_engine, path_not_canonical, argv_has_nul, bad_mode, bad_timeout, bad_compare, bad_grace,
  Checked, bad_umask, path_has_controls, bad_bwlimit, negative_keep, keep_without_backup,
  negative_max_del, max_del_not_mirror, sys_backup_not_rsync, exclude_has_controls,
  exclude_has_dash,
}
use sync_bridge.Text.{GoText, split_csv}
use sync_bridge.Base.{
  second, ◌>>◌, none, [], ℕ, String, List, ℤ, times64, Bool, Result, Option, if◌then◌else◌, pos,
  ltb, ◌==◌, false, true, ◌*◌, ◌||◌, failure, not, ◌∷◌, ◌&&◌, int_keyed, nat_keyed, some, refuse_if,
  string_keyed, ◌>>◌, ok, int_ltb,
}

-- A control character of a path.
abbrev pub is_path_control : ℕ → Bool
is_path_control c = ltb c 32 || c == 127

unfoldable pub validate_absolute_canonical_path : GoText → String → Checked
validate_absolute_canonical_path go value = do
  refuse_if (value == "" || not (is_clean_path go value)) path_not_canonical
  refuse_if (has_nul value || any_char is_path_control value) path_has_controls
  ok tt

abbrev pub inspected : String → Option HostPathInfo → Result PlanError HostPathInfo
inspected value none = failure inspect_failed
inspected value (some info) =
    refuse_if (not (info.canonical_path == value)) path_not_host_canonical >> ok info

unfoldable pub inspect_canonical_path :
    GoText → HostInspector → String → Result PlanError HostPathInfo
inspect_canonical_path go host value = do
  validate_absolute_canonical_path go value
  inspected value (host.inspect_path value)

unfoldable pub path_within : String → String → Bool
path_within parent candidate =
    if parent == "/" then not (candidate == "/") else starts_with candidate (parent ++ "/")

unfoldable pub directory_arg : String → String
directory_arg value = if value == "/" || ends_with b'/' value then value else value ++ "/"

unfoldable pub any_nul : List String → Bool
any_nul [] = false
any_nul (arg ∷ more) = has_nul arg || any_nul more

abbrev pub starts_empty : List String → Bool
starts_empty [] = true
starts_empty (program ∷ more) = program == ""

unfoldable pub validate_argv : List String → Checked
validate_argv argv = do
  refuse_if (starts_empty argv) argv_empty
  refuse_if (any_nul argv) argv_has_nul
  ok tt

abbrev pub is_exclude_control : ℕ → Bool
is_exclude_control c = ltb c 32 && not (c == 9)

unfoldable pub any_dash : List String → Bool
any_dash [] = false
any_dash (pattern_text ∷ more) = starts_with pattern_text "-" || any_dash more

unfoldable pub validate_sync_action_options : GoText → SyncAction → Checked
validate_sync_action_options go a = do
  refuse_if (not (a.engine == "rsync") && not (a.engine == "rclone")) bad_engine
  refuse_if (not (a.mode == "add") && not (a.mode == "mirror") && not (a.mode == "move")) bad_mode
  refuse_if
      (not (a.compare_by == "") && not (a.compare_by == "time") && not (a.compare_by == "checksum"))
      bad_compare
  refuse_if (not (a.bwlimit == "") && not (is_bandwidth_limit a.bwlimit)) bad_bwlimit
  refuse_if (int_ltb a.backup_keep (pos 0)) negative_keep
  refuse_if (int_ltb (pos 0) a.backup_keep && not a.backup) keep_without_backup
  refuse_if (int_ltb a.max_del (pos 0)) negative_max_del
  refuse_if (int_ltb (pos 0) a.max_del && not (a.mode == "mirror")) max_del_not_mirror
  refuse_if (a.sys_backup && not (a.engine == "rsync")) sys_backup_not_rsync
  refuse_if (has_nul a.exclude || any_char is_exclude_control a.exclude) exclude_has_controls
  refuse_if (any_dash (split_csv go a.exclude)) exclude_has_dash
  ok tt

pub record Bounds : Type 0 where
  pub timeout : ℤ
  pub stop_grace : ℤ
  pub umask : ℕ

abbrev pub int_or : ℤ → ℤ → ℤ
int_or d fallback = if d == pos 0 then fallback else d

abbrev pub default_execution_timeout : ℤ
default_execution_timeout = pos (3600 * second)

abbrev pub default_stop_grace : ℤ
default_stop_grace = pos (10 * second)

unfoldable pub compile_execution_bounds : ExecutionPolicy → Result PlanError Bounds
compile_execution_bounds policy = do
  refuse_if (int_ltb policy.timeout_seconds (pos 0) || int_ltb (pos 604800) policy.timeout_seconds)
      bad_timeout
  refuse_if
      (int_ltb policy.stop_grace_seconds (pos 0) || int_ltb (pos 300) policy.stop_grace_seconds)
      bad_grace
  refuse_if (ltb 511 policy.umask) bad_umask
  ok (record {
    timeout = int_or (times64 policy.timeout_seconds second) default_execution_timeout;
    stop_grace = int_or (times64 policy.stop_grace_seconds second) default_stop_grace;
    umask = if policy.umask == 0 then 18 else policy.umask;
  })
