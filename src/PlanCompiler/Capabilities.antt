-- ===== src/PlanCompiler/Capabilities.antt =====
-- `ByCode`, `Require`, `HostTools` and `details` of capabilities.go.
use text.Mathlib.Text.{starts_with}
use sync_bridge.Base.{◌>>◌, none, some, [], ◌∷◌, Option, List, ◌&&◌, refuse_if, not}
use sync_bridge.Text.{GoText}
use sync_bridge.PlanCompiler.Types.{
  CapabilityReport, HostToolPaths, CapabilityResult, PlanError, missing_capabilities, bad_tool_path,
  Checked, no_toolchain, bad_profile,
}
use sync_bridge.Base.{
  List, Option, String, ◌∷◌, Result, some, lookup, Bool, false, if◌then◌else◌, string_keyed, [],
  ◌==◌, true, ok, ◌||◌, failure,
}

unfoldable pub by_code : CapabilityReport → String → CapabilityResult
by_code [] code = record {
  code = code;
  available = false;
  details = ("reason", "probe_failed") ∷ [];
}
by_code (result ∷ more) code = if result.code == code then result else by_code more code

unfoldable pub missing : CapabilityReport → List String → List String
missing report [] = []
missing report (code ∷ more) =
    let rest = missing report more in if (by_code report code).available then rest else code ∷ rest

abbrev pub missing_error : List String → Checked
missing_error [] = ok tt
missing_error (code ∷ more) = failure (missing_capabilities (code ∷ more))

unfoldable pub require : CapabilityReport → List String → Checked
require report codes = missing_error (missing report codes)

-- `result.Details[name]`
abbrev pub text_or_empty : Option String → String
text_or_empty none = ""
text_or_empty (some s) = s

abbrev pub detail : List (String × String) → String → String
detail details name = text_or_empty (lookup name details)

-- filepath.IsAbs, and filepath.Clean
abbrev pub is_clean_path : GoText → String → Bool
is_clean_path go path = starts_with path "/" && go.clean path == path

unfoldable pub tools_checked : GoText → List (String × String) → List String → Checked
tools_checked go details [] = ok tt
tools_checked go details (name ∷ more) =
    let rest = tools_checked go details more in
    if is_clean_path go (detail details name) then rest else failure (bad_tool_path name)

abbrev pub tool_names : List String
tool_names =
    "shell" ∷ "test" ∷ "readlink" ∷ "stat" ∷ "head" ∷ "find" ∷ "getent" ∷ "setpriv" ∷ "env"
    ∷ "mkdir" ∷ "chown" ∷ "chmod" ∷ "mktemp" ∷ "tee" ∷ "sync" ∷ "mv" ∷ "rm" ∷ "rmdir" ∷ "date" ∷ []

abbrev pub is_profile : String → Bool
is_profile profile = profile == "gnu" || profile == "busybox" || profile == "uutils"

-- The paths that the details name.
unfoldable pub tools_of : List (String × String) → HostToolPaths
tools_of details = record {
  profile = detail details "profile";
  shell = detail details "shell";
  test = detail details "test";
  readlink = detail details "readlink";
  stat = detail details "stat";
  head = detail details "head";
  find = detail details "find";
  getent = detail details "getent";
  setpriv = detail details "setpriv";
  env = detail details "env";
  mkdir = detail details "mkdir";
  chown = detail details "chown";
  chmod = detail details "chmod";
  mktemp = detail details "mktemp";
  tee = detail details "tee";
  sync = detail details "sync";
  mv = detail details "mv";
  rm = detail details "rm";
  rmdir = detail details "rmdir";
  date = detail details "date";
}

unfoldable pub tools_from : GoText → CapabilityResult → Result PlanError HostToolPaths
tools_from go result = do
  refuse_if (not result.available) no_toolchain
  tools_checked go result.details tool_names
  refuse_if (not (is_profile (detail result.details "profile"))) bad_profile
  ok (tools_of result.details)

unfoldable pub host_tools : GoText → CapabilityReport → Result PlanError HostToolPaths
host_tools go report = tools_from go (by_code report "host_toolchain")

unfoldable pub details : HostToolPaths → List (String × String)
details t =
    ("profile", t.profile)
    ∷ ("shell", t.shell)
    ∷ ("test", t.test)
    ∷ ("readlink", t.readlink)
    ∷ ("stat", t.stat)
    ∷ ("head", t.head)
    ∷ ("find", t.find)
    ∷ ("getent", t.getent)
    ∷ ("setpriv", t.setpriv)
    ∷ ("env", t.env)
    ∷ ("mkdir", t.mkdir)
    ∷ ("chown", t.chown)
    ∷ ("chmod", t.chmod)
    ∷ ("mktemp", t.mktemp)
    ∷ ("tee", t.tee)
    ∷ ("sync", t.sync)
    ∷ ("mv", t.mv)
    ∷ ("rm", t.rm)
    ∷ ("rmdir", t.rmdir)
    ∷ ("date", t.date)
    ∷ []

abbrev pub available_capability : String → List (String × String) → CapabilityResult
available_capability code details = record { code = code; available = true; details = details }
