-- ===== src/PlanCompiler/Argv.antt =====
-- `syncArgv` of execution_plan.go: an option that is on appends its arguments.
use sync_bridge.Base.{true, false, ◌>>◌, ok}
use sync_bridge.Text.{GoText, split_csv}
use sync_bridge.PlanCompiler.Checks.{directory_arg, validate_sync_action_options}
use sync_bridge.PlanCompiler.Patterns.{trim_last}
use sync_bridge.PlanCompiler.Types.{PlanText, PlanError}
use sync_bridge.Job.{SyncAction}
use Prim.Native.String.{String}
use sync_bridge.Base.{
  List, [], ◌∷◌, Bool, if◌then◌else◌, ◌==◌, not, int_ltb, ◌++◌, Result, ◌||◌, string_keyed, pos,
}

abbrev pub only_if : Bool → List String → List String
only_if true args = args
only_if false args = []

abbrev pub excludes : List String → List String
excludes [] = []
excludes (pattern_text ∷ more) = "--exclude" ∷ pattern_text ∷ excludes more

abbrev pub is_destructive : SyncAction → Bool
is_destructive a = a.mode == "mirror" || a.mode == "move"

-- Without a `B` or `b` at the end, in this order.
abbrev pub bandwidth : SyncAction → String
bandwidth a = trim_last b'b' (trim_last b'B' a.bwlimit)

abbrev pub backup_token : String
backup_token = "__SYNCBRIDGE_BACKUP_DIR__"

abbrev pub bandwidth_args : SyncAction → List String
bandwidth_args a = only_if (not (bandwidth a == "")) ("--bwlimit" ∷ bandwidth a ∷ [])

abbrev pub limit_args : PlanText → SyncAction → List String
limit_args text a = only_if (int_ltb (pos 0) a.max_del) ("--max-delete" ∷ text.itoa a.max_del ∷ [])

unfoldable pub rsync_settings : GoText → PlanText → SyncAction → List String
rsync_settings go text a =
    only_if a.sys_backup ("-HAX" ∷ "--numeric-ids" ∷ "--fake-super" ∷ [])
    ++ only_if (a.mode == "mirror") ("--delete" ∷ [])
    ++ only_if (a.mode == "move") ("--remove-source-files" ∷ [])
    ++ only_if (a.compare_by == "checksum") ("--checksum" ∷ [])
    ++ bandwidth_args a
    ++ only_if a.backup
        ("--backup" ∷ "--backup-dir" ∷ backup_token ∷ "--exclude" ∷ ".sb-backup" ∷ [])
    ++ limit_args text a
    ++ only_if a.skip_new ("--update" ∷ [])
    ++ excludes (split_csv go a.exclude)

unfoldable pub rsync_options : GoText → PlanText → SyncAction → Bool → List String
rsync_options go text a dry_run =
    rsync_settings go text a ++ only_if dry_run ("--dry-run" ∷ "--itemize-changes" ∷ [])

unfoldable pub rsync_argv : GoText → PlanText → SyncAction → Bool → List String
rsync_argv go text a dry_run =
    ("rsync" ∷ "-a" ∷ "--info=progress2,stats2" ∷ "--human-readable" ∷ [])
    ++ rsync_options go text a dry_run
    ++ ("--" ∷ directory_arg a.source ∷ directory_arg a.dest ∷ [])

abbrev pub rclone_verb : String → String
rclone_verb mode =
    if mode == "add"
    then "copy"
    else if mode == "mirror"
    then "sync"
    else if mode == "move"
    then "move"
    else ""

unfoldable pub rclone_settings : GoText → PlanText → SyncAction → List String
rclone_settings go text a =
    only_if (a.compare_by == "checksum") ("--checksum" ∷ [])
    ++ bandwidth_args a
    ++ only_if a.backup ("--backup-dir" ∷ backup_token ∷ "--exclude" ∷ ".sb-backup/**" ∷ [])
    ++ limit_args text a
    ++ only_if a.skip_new ("--update" ∷ [])
    ++ excludes (split_csv go a.exclude)

unfoldable pub rclone_options : GoText → PlanText → SyncAction → Bool → List String
rclone_options go text a dry_run = rclone_settings go text a ++ only_if dry_run ("--dry-run" ∷ [])

unfoldable pub rclone_argv : GoText → PlanText → SyncAction → Bool → List String
rclone_argv go text a dry_run =
    ("rclone"
      ∷ rclone_verb a.mode
      ∷ a.source
      ∷ a.dest
      ∷ "--progress"
      ∷ "--stats=1s"
      ∷ "--stats-one-line"
      ∷ [])
    ++ rclone_options go text a dry_run

-- The arguments, and whether the sync destroys.
unfoldable pub sync_argv :
    GoText → PlanText → SyncAction → Bool → Result PlanError (List String × Bool)
sync_argv go text a dry_run = do
  validate_sync_action_options go a
  ok (
    if a.engine == "rsync" then rsync_argv go text a dry_run else rclone_argv go text a dry_run,
    is_destructive a,
  )
