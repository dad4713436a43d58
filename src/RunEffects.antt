-- ===== src/RunEffects.antt =====
-- cmd/syncbridge/run_effects.go: what follows the end of a run. Reading and removing directories,
-- the pattern of backup names and `sort.Strings` are parameters; a path is left to its parts.
use sync_bridge.Base.{
  ℕ, zero, suc, ◌-◌, ltb, String, Bool, true, false, ◌&&◌, List, [], ◌∷◌, ℤ, pos, negsuc, int_ltb,
  take, length, if◌then◌else◌,
}
use sync_bridge.Job.{Job, is_sync}
use sync_bridge.RunService.State.{RunSnapshot, RunStatus, succeeded, killed, skipped_overlap}

pub data Effect : Type 0 where
  rotate_backups : String → ℤ → Effect
  notify_run : String → String → Effect

abbrev pub is_succeeded : RunStatus → Bool
is_succeeded succeeded = true
is_succeeded _ = false

-- The notification, unless the run was skipped.
abbrev pub notification : String → RunStatus → List Effect
notification name succeeded = notify_run name "ok" ∷ []
notification name killed = notify_run name "stopped" ∷ []
notification name skipped_overlap = []
notification name _ = notify_run name "error" ∷ []

-- `handleRunTerminalEffects`, as the effects in order.
unfoldable pub handle_run_terminal_effects : Job → RunSnapshot → List Effect
handle_run_terminal_effects job run =
    let sync = job.action.sync in
    let notified = notification job.name run.status in
    if run.dry_run
    then []
    else (if is_succeeded run.status
          && is_sync job.action.type
          && sync.backup
          && int_ltb (pos 0) sync.backup_keep
        then rotate_backups sync.dest sync.backup_keep ∷ notified
        else notified)

-- The directories among the entries whose names are those of backups, in their order.
abbrev pub backup_names : (String → Bool) → List (String × Bool) → List String
backup_names matches [] = []
backup_names matches ((name, is_dir) ∷ more) =
    let rest = backup_names matches more in if is_dir && matches name then name ∷ rest else rest

abbrev pub oldest_beyond : ℕ → List String → List String
oldest_beyond keep sorted =
    if ltb keep (length sorted) then take (length sorted - keep) sorted else []

-- The names that `rotateBackupsHost` removes, oldest first, where the directory can be read.
unfoldable pub removed_backups :
    (String → Bool) → (List String → List String) → ℤ → List (String × Bool) → List String
removed_backups matches sort_strings (negsuc n) entries = []
removed_backups matches sort_strings (pos zero) entries = []
removed_backups matches sort_strings (pos (suc k)) entries =
    oldest_beyond (suc k) (sort_strings (backup_names matches entries))
