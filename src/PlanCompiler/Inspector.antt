-- ===== src/PlanCompiler/Inspector.antt =====
-- `runnerHostInspector` of execution_plan.go: what the host's commands print becomes facts on paths and
-- accounts. All its errors are one here.
use sync_bridge.PlanCompiler.Patterns.{trim_last, any_char}
use sync_bridge.PlanCompiler.Types.{
  HostPathInfo, HostToolPaths, PlanError, HostUser, HostGroup, inspect_failed,
}
use sync_bridge.Base.{
  ◌>>◌, ◌>>=◌, none, some, [], ◌∷◌, true, false, List, Option, String, Bool, ℤ, ℕ, Result, ◌==◌,
  pos, ◌/◌, not, ◌||◌, refuse_if, failure, ◌%◌, ok, nat_keyed, string_keyed, int_ltb,
}

-- A command with its output, or an error; and what the source uses of strings and strconv.
pub record HostRunner : Type 0 where
  pub run : List String → Option String
  pub split_colon : String → List String
  pub atoi : String → Option ℤ
  pub parse_hex : String → Option ℕ

abbrev pub is_end : ℕ → Bool
is_end c = c == 10 || c == 13

unfoldable pub single_output_line : String → Result PlanError String
single_output_line output = do
  refuse_if (trim_last 10 output == "" || any_char is_end (trim_last 10 output)) inspect_failed
  ok (trim_last 10 output)

abbrev pub given {ℓ} : {A : Type ℓ} → Option A → Result PlanError A
given none = failure inspect_failed
given (some a) = ok a

abbrev pub natural : ℤ → Result PlanError ℤ
natural id = refuse_if (int_ltb id (pos 0)) inspect_failed >> ok id

unfoldable pub number : HostRunner → String → Result PlanError ℤ
number host text = do id ← given (host.atoi text); natural id

-- A path with nothing there.
abbrev pub absent : String → HostPathInfo
absent canonical = record {
  canonical_path = canonical;
  exists = false;
  regular = false;
  directory = false;
  executable = false;
  has_shebang = false;
  empty = false;
  uid = pos 0;
  gid = pos 0;
}

-- `mode & 0o170000`, in units of 0o10000, and `mode & 0o111 != 0`
abbrev pub kind_of : ℕ → ℕ
kind_of mode = mode / 4096 % 16

abbrev pub any_executable : ℕ → Bool
any_executable mode = not (mode % 2 == 0) || not (mode / 8 % 2 == 0) || not (mode / 64 % 2 == 0)

unfoldable pub shebang_of : HostRunner → HostToolPaths → String → Bool → Result PlanError Bool
shebang_of host tools path false = ok false
shebang_of host tools path true = do
  text ← given (host.run (tools.head ∷ "-c" ∷ "2" ∷ "--" ∷ path ∷ []))
  ok (text == "#!")

unfoldable pub empty_of : HostRunner → HostToolPaths → String → Bool → Result PlanError Bool
empty_of host tools path false = ok false
empty_of host tools path true = do
  text ← given (
      host.run
        (tools.find ∷ path ∷ "-mindepth" ∷ "1" ∷ "-maxdepth" ∷ "1" ∷ "-print" ∷ "-quit" ∷ []))
  ok (text == "")

-- The three fields of stat.
unfoldable pub stat_fields :
    HostRunner → HostToolPaths → String → String → List String → Result PlanError HostPathInfo
stat_fields host tools path canonical (mode_text ∷ uid_text ∷ gid_text ∷ []) = do
  mode ← given (host.parse_hex mode_text)
  uid ← number host uid_text
  gid ← number host gid_text
  shebang ← shebang_of host tools path (kind_of mode == 8)
  empty ← empty_of host tools path (kind_of mode == 4)
  ok (record {
    canonical_path = canonical;
    exists = true;
    regular = kind_of mode == 8;
    directory = kind_of mode == 4;
    executable = any_executable mode;
    has_shebang = shebang;
    empty = empty;
    uid = uid;
    gid = gid;
  })
stat_fields host tools path canonical _ = failure inspect_failed

-- A path that stat does not read is missing if `test` says so.
abbrev pub after_stat :
    HostRunner → HostToolPaths → String → String → Option String → Result PlanError HostPathInfo
after_stat host tools path canonical none = do
  missing_output ← given (host.run (tools.test ∷ "!" ∷ "-e" ∷ path ∷ []))
  ok (absent canonical)
after_stat host tools path canonical (some output) = do
  line ← single_output_line output
  stat_fields host tools path canonical (host.split_colon line)

unfoldable pub inspect_path : HostRunner → HostToolPaths → String → Result PlanError HostPathInfo
inspect_path host tools path = do
  output ← given (host.run (tools.readlink ∷ "-m" ∷ "--" ∷ path ∷ []))
  canonical ← single_output_line output
  after_stat host tools path canonical
      (host.run (tools.stat ∷ "-c" ∷ "%f:%u:%g" ∷ "--" ∷ path ∷ []))

unfoldable pub user_fields : HostRunner → List String → Result PlanError HostUser
user_fields host (name ∷ password ∷ uid_text ∷ gid_text ∷ comment ∷ home ∷ shell ∷ []) = do
  uid ← number host uid_text
  gid ← number host gid_text
  refuse_if (name == "" || home == "" || shell == "") inspect_failed
  ok (record { name = name; uid = uid; gid = gid; home = home; shell = shell })
user_fields host _ = failure inspect_failed

unfoldable pub lookup_user : HostRunner → HostToolPaths → String → Result PlanError HostUser
lookup_user host tools name = do
  output ← given (host.run (tools.getent ∷ "passwd" ∷ name ∷ []))
  line ← single_output_line output
  user_fields host (host.split_colon line)

unfoldable pub group_fields : HostRunner → List String → Result PlanError HostGroup
group_fields host (name ∷ password ∷ gid_text ∷ members ∷ []) = do
  gid ← given (host.atoi gid_text)
  refuse_if (int_ltb gid (pos 0) || name == "") inspect_failed
  ok (record { name = name; gid = gid })
group_fields host _ = failure inspect_failed

unfoldable pub lookup_group : HostRunner → HostToolPaths → String → Result PlanError HostGroup
lookup_group host tools name = do
  output ← given (host.run (tools.getent ∷ "group" ∷ name ∷ []))
  line ← single_output_line output
  group_fields host (host.split_colon line)
