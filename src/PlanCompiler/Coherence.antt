-- ===== src/PlanCompiler/Coherence.antt =====
-- The facts that the host inspector of execution_plan.go reports agree with each other.
use sync_bridge.PlanCompiler.Inspector.{
  number, shebang_of, empty_of, stat_fields, inspect_path, HostRunner, given, after_stat, kind_of,
  any_executable, single_output_line,
}
use sync_bridge.PlanCompiler.Types.{HostPathInfo, HostToolPaths, inspect_failed}
use sync_bridge.Base.{
  none, some, [], ◌∷◌, true, false, ℕ, Bool, ◌&&◌, ◌==◌, ◌≡◌, String, ◌||◌, ℤ, ok, arith, refl,
  List, not, int_ltb, nat_keyed, >>=-ok, Option, pos, subst, refuse_if-ok, ok-inj,
}

-- Facts on one path that hold together.
pub record IsCoherent (info : HostPathInfo) : Type 0 where
  pub one_kind : (info.regular && info.directory) ≡ false
  pub there : ((info.regular || info.directory || info.executable) && not info.exists) ≡ false
  pub shebang_of_file : (info.has_shebang && not info.regular) ≡ false
  pub empty_directory : (info.empty && not info.directory) ≡ false
  pub uid_natural : int_ltb info.uid (pos 0) ≡ false
  pub gid_natural : int_ltb info.gid (pos 0) ≡ false

number-natural :
    (host : HostRunner) (text : String) (id : ℤ)
    → number host text ≡ ok id
    → int_ltb id (pos 0) ≡ false
unfolding number
number-natural host text id h =
    let (parsed, read, h1) = >>=-ok (given (host.atoi text)) _ h in
    let (small, made) = refuse_if-ok (int_ltb parsed (pos 0)) inspect_failed (ok parsed) h1 in
    subst (λ x. int_ltb x (pos 0) ≡ false) (ok-inj made) small

shebang_of-file :
    (host : HostRunner) (tools : HostToolPaths) (path : String) (regular b : Bool)
    → shebang_of host tools path regular ≡ ok b
    → (b && not regular) ≡ false
unfolding shebang_of
shebang_of-file host tools path true b h = ground arith
shebang_of-file host tools path false b h = subst (λ x. (x && true) ≡ false) (ok-inj h) refl

empty_of-directory :
    (host : HostRunner) (tools : HostToolPaths) (path : String) (directory b : Bool)
    → empty_of host tools path directory ≡ ok b
    → (b && not directory) ≡ false
unfolding empty_of
empty_of-directory host tools path true b h = ground arith
empty_of-directory host tools path false b h = subst (λ x. (x && true) ≡ false) (ok-inj h) refl

one_kind_only : (k : ℕ) → ((k == 8) && (k == 4)) ≡ false
one_kind_only k = ground arith

never_absent : (b : Bool) → (b && false) ≡ false
never_absent true = refl
never_absent false = refl

stat_fields-IsCoherent :
    (host : HostRunner) (tools : HostToolPaths) (path canonical : String) (parts : List String)
    (info : HostPathInfo)
    → stat_fields host tools path canonical parts ≡ ok info
    → IsCoherent info
unfolding stat_fields
stat_fields-IsCoherent host tools path canonical [] info h = absurd (cc h)
stat_fields-IsCoherent host tools path canonical (a ∷ []) info h = absurd (cc h)
stat_fields-IsCoherent host tools path canonical (a ∷ b ∷ []) info h = absurd (cc h)
stat_fields-IsCoherent host tools path canonical (a ∷ b ∷ c ∷ d ∷ more) info h = absurd (cc h)
stat_fields-IsCoherent host tools path canonical (a ∷ b ∷ c ∷ []) info h =
    let (mode, parsed, h1) = >>=-ok (given (host.parse_hex a)) _ h in
    let (uid, owner, h2) = >>=-ok (number host b) _ h1 in
    let (gid, group, h3) = >>=-ok (number host c) _ h2 in
    let (shebang, head, h4) = >>=-ok (shebang_of host tools path (kind_of mode == 8)) _ h3 in
    let (bare, found, h5) = >>=-ok (empty_of host tools path (kind_of mode == 4)) _ h4 in
    subst IsCoherent (ok-inj h5) (record {
      one_kind = one_kind_only (kind_of mode);
      there = never_absent ((kind_of mode == 8) || (kind_of mode == 4) || any_executable mode);
      shebang_of_file = shebang_of-file host tools path (kind_of mode == 8) shebang head;
      empty_directory = empty_of-directory host tools path (kind_of mode == 4) bare found;
      uid_natural = number-natural host b uid owner;
      gid_natural = number-natural host c gid group;
    })

-- What the inspector reports of a path: it is not both a file and a directory, and neither nor executable if
-- it does not exist; only a file has a shebang and only a directory is empty; no identifier is negative.
pub inspect_path-IsCoherent :
    (host : HostRunner) (tools : HostToolPaths) (path : String) (info : HostPathInfo)
    → inspect_path host tools path ≡ ok info
    → IsCoherent info
unfolding inspect_path
inspect_path-IsCoherent host tools path info h =
    let (output, ran, h1) =
      >>=-ok (given (host.run (tools.readlink ∷ "-m" ∷ "--" ∷ path ∷ []))) _ h in
    let (canonical, line, h2) = >>=-ok (single_output_line output) _ h1 in
    behind canonical (host.run (tools.stat ∷ "-c" ∷ "%f:%u:%g" ∷ "--" ∷ path ∷ [])) h2
  where
    behind :
        (canonical : String) (o : Option String)
        → after_stat host tools path canonical o ≡ ok info
        → IsCoherent info
    behind canonical none e =
        let (output, ran, e1) =
          >>=-ok (given (host.run (tools.test ∷ "!" ∷ "-e" ∷ path ∷ []))) _ e in
        subst IsCoherent (ok-inj e1) (record {
          one_kind = refl;
          there = refl;
          shebang_of_file = refl;
          empty_directory = refl;
          uid_natural = refl;
          gid_natural = refl;
        })
    behind canonical (some output) e =
        let (line, read, e1) = >>=-ok (single_output_line output) _ e in
        stat_fields-IsCoherent host tools path canonical (host.split_colon line) info e1
