-- ===== src/PlanCompiler/Environment.antt =====
-- `compileEnvironment` of execution_plan.go. The map of values is walked by its sorted names.
use sync_bridge.PlanCompiler.Capabilities.{detail}
use sync_bridge.Job.{Job}
use sync_bridge.PlanCompiler.Patterns.{cut, is_environment_name, has_nul}
use sync_bridge.PlanCompiler.Types.{
  PlanText, RunRequest, PlanError, bad_entry, reserved_name, duplicate_name,
}
use Prim.Native.String.{compare, ◌++◌}
use text.Mathlib.Text.{is_lt}
use sync_bridge.Base.{
  ◌>>◌, ◌>>=◌, none, some, [], Option, List, ◌∷◌, Bool, String, if◌then◌else◌, Result, failure, ok,
  refuse_if, not, elem, ◌||◌, insert, string_keyed,
}
use sync_bridge.RunService.State.{
  no_origin, manual_origin, cron_origin, watch_origin, system_origin, other_origin, RunOrigin,
}

abbrev pub origin_text : RunOrigin → String
origin_text no_origin = ""
origin_text manual_origin = "manual"
origin_text cron_origin = "cron"
origin_text watch_origin = "watch"
origin_text system_origin = "system"
origin_text (other_origin s) = s

abbrev pub bool_text : Bool → String
bool_text b = if b then "true" else "false"

abbrev pub job_path : String
job_path = "/usr/local/sbin:/usr/local/bin:/usr/sbin:/usr/bin:/sbin:/bin"

unfoldable pub base_values : PlanText → Job → RunRequest → List (String × String)
base_values text job request =
    ("PATH", job_path)
    ∷ ("TZ", "UTC")
    ∷ ("LANG", "C")
    ∷ ("LC_ALL", "C")
    ∷ ("SYNCBRIDGE_RUN_ID", request.run_id)
    ∷ ("SYNCBRIDGE_JOB_ID", text.itoa job.id)
    ∷ ("SYNCBRIDGE_JOB_REVISION", text.format_uint job.revision)
    ∷ ("SYNCBRIDGE_RUN_ORIGIN", origin_text request.origin)
    ∷ ("SYNCBRIDGE_DRY_RUN", bool_text request.dry_run)
    ∷ []

unfoldable pub reserved : List String
reserved =
    "HOME" ∷ "USER" ∷ "LOGNAME" ∷ "SHELL" ∷ "PATH" ∷ "SYNCBRIDGE_RUN_ID" ∷ "SYNCBRIDGE_JOB_ID"
    ∷ "SYNCBRIDGE_JOB_REVISION" ∷ "SYNCBRIDGE_RUN_ORIGIN" ∷ "SYNCBRIDGE_DRY_RUN" ∷ []

abbrev pub parsed_entry : String → Option (String × String) → Result PlanError (String × String)
parsed_entry entry none = failure (bad_entry entry)
parsed_entry entry (some p) =
    refuse_if (not (is_environment_name p.0) || has_nul p.1) (bad_entry entry) >> ok p

-- The loop over the entries of the job.
unfoldable pub add_entries :
    List String → List String → List (String × String) → Result PlanError (List (String × String))
add_entries [] seen values = ok values
add_entries (entry ∷ more) seen values = do
  p ← parsed_entry entry (cut b'=' entry)
  refuse_if (elem p.0 reserved) (reserved_name p.0)
  refuse_if (elem p.0 seen) (duplicate_name p.0)
  add_entries more (p.0 ∷ seen) (insert p.0 p.1 values)

-- sort.Strings
unfoldable pub insert_name : String → List String → List String
insert_name name [] = name ∷ []
insert_name name (other ∷ more) =
    let rest = insert_name name more in
    if is_lt (compare other name) then other ∷ rest else name ∷ other ∷ more

unfoldable pub sorted_names : List (String × String) → List String
sorted_names [] = []
sorted_names ((name, value) ∷ more) = insert_name name (sorted_names more)

unfoldable pub assignments : List (String × String) → List String → List String
assignments values [] = []
assignments values (name ∷ more) = (name ++ "=" ++ detail values name) ∷ assignments values more

unfoldable pub compile_environment : PlanText → Job → RunRequest → Result PlanError (List String)
compile_environment text job request = do
  values ← add_entries job.execution.environment [] (base_values text job request)
  ok (assignments values (sorted_names values))
