-- ===== src/PlanCompiler/Admission.antt =====
-- Which identities and jobs the compiler of execution_plan.go admits.
use sync_bridge.PlanCompiler.Syncing.{inspect_canonical_path-ok}
use sync_bridge.PlanCompiler.Checks.{inspect_canonical_path}
use sync_bridge.Text.{GoText}
use sync_bridge.PlanCompiler.Compile.{
  validate_script_owner, validate_fixed, validate_identity, is_script_action, user_with_uid,
  is_user, is_group,
}
use sync_bridge.PlanCompiler.Types.{
  HostInspector, PlanText, HostUser, HostGroup, HostPathInfo, PlanError, bad_identity_mode,
}
use sync_bridge.Base.{
  none, some, inl, inr, ℤ, String, Option, ◌≡◌, not, ok, true, refuse_if-ok, ◌⊎◌, false, >>=-ok,
  subst, int_keyed, string_keyed, ◌==◌, ok-inj, Result, refl, and-left, pos, ap, and-right, sym,
  failure, not-false, ◌∙◌, neither, nat_keyed,
}
use sync_bridge.Job.{script_owner, fixed, other_identity, Job, Identity, IdentityMode}

user_with_uid-some :
    (uid : ℤ) (o : Option HostUser)
    → not (user_with_uid uid o) ≡ false
    → (user : HostUser) × (o ≡ some user) × (user.uid ≡ uid)
user_with_uid-some uid none h = absurd (cc h)
user_with_uid-some uid (some user) h = (
  user,
  refl,
  (int_keyed.same_iff user.uid uid).0 (and-left (user.uid == uid) (not (user.name == "")) h),
)

is_user-some :
    (name : String) (uid : ℤ) (o : Option HostUser)
    → not (is_user name uid o) ≡ false
    → (user : HostUser) × (o ≡ some user) × (user.name ≡ name) × (user.uid ≡ uid)
is_user-some name uid none h = absurd (cc h)
is_user-some name uid (some user) h = (
  user,
  refl,
  (string_keyed.same_iff user.name name).0 (and-left (user.name == name) (user.uid == uid) h),
  (int_keyed.same_iff user.uid uid).0 (and-right (user.name == name) (user.uid == uid) h),
)

is_group-some :
    (name : String) (gid : ℤ) (o : Option HostGroup)
    → not (is_group name gid o) ≡ false
    → (group : HostGroup) × (o ≡ some group) × (group.name ≡ name) × (group.gid ≡ gid)
is_group-some name gid none h = absurd (cc h)
is_group-some name gid (some group) h = (
  group,
  refl,
  (string_keyed.same_iff group.name name).0 (and-left (group.name == name) (group.gid == gid) h),
  (int_keyed.same_iff group.gid gid).0 (and-right (group.name == name) (group.gid == gid) h),
)

-- A script that its owner runs: the host knows the script's owner, and neither owner nor group is root.
pub record OwnedScript (host : HostInspector) (job : Job) (i : Identity) : Type 0 where
  pub takes_owner : i.mode ≡ script_owner
  pub runs_script : is_script_action job.action.type ≡ true
  pub info : HostPathInfo
  pub inspected_as : host.inspect_path job.action.script_path ≡ some info
  pub owner_not_root : (info.uid == pos 0) ≡ false
  pub group_not_root : (info.gid == pos 0) ≡ false

-- A fixed identity: the job's own, with names and numbers that agree with the host's accounts.
pub record HostAccount (host : HostInspector) (job : Job) (i : Identity) : Type 0 where
  pub same_identity : i ≡ job.identity
  pub user : HostUser
  pub user_found : host.lookup_user i.user ≡ some user
  pub user_name : user.name ≡ i.user
  pub user_uid : user.uid ≡ i.uid
  pub group : HostGroup
  pub group_found : host.lookup_group i.group ≡ some group
  pub group_name : group.name ≡ i.group
  pub group_gid : group.gid ≡ i.gid

validate_script_owner-OwnedScript :
    (go : GoText) (text : PlanText) (host : HostInspector) (job : Job) (i : Identity)
    → validate_script_owner go text host job ≡ ok i
    → OwnedScript host job i
unfolding validate_script_owner
validate_script_owner-OwnedScript go text host job i h =
    let (script, h1) = refuse_if-ok _ _ _ h in
    let (info, seen, h2) = >>=-ok (inspect_canonical_path go host job.action.script_path) _ h1 in
    let (runs, h3) = refuse_if-ok _ _ _ h2 in
    let (root, h4) = refuse_if-ok _ _ _ h3 in
    let (user, h5) = refuse_if-ok _ _ _ h4 in
    let (group, h6) = refuse_if-ok _ _ _ h5 in
    record {
      takes_owner = ap (λ (x : Identity). x.mode) (sym (ok-inj h6));
      runs_script = not-false (is_script_action job.action.type) script;
      info = info;
      inspected_as = (inspect_canonical_path-ok go host job.action.script_path info seen).0;
      owner_not_root = (neither (info.uid == pos 0) (info.gid == pos 0) root).0;
      group_not_root = (neither (info.uid == pos 0) (info.gid == pos 0) root).1;
    }

validate_fixed-HostAccount :
    (host : HostInspector) (job : Job) (i : Identity)
    → validate_fixed host job.identity ≡ ok i
    → HostAccount host job i
unfolding validate_fixed
validate_fixed-HostAccount host job i h =
    let (whole, h1) = refuse_if-ok _ _ _ h in
    let (is_u, h2) = refuse_if-ok _ _ _ h1 in
    let (is_g, h3) = refuse_if-ok _ _ _ h2 in
    let (user, found, named, numbered) =
      is_user-some job.identity.user job.identity.uid (host.lookup_user job.identity.user) is_u in
    let (group, gfound, gnamed, gnumbered) =
      is_group-some job.identity.group job.identity.gid (host.lookup_group job.identity.group)
        is_g in
    subst (HostAccount host job) (ok-inj h3) (record {
      same_identity = refl;
      user = user;
      user_found = found;
      user_name = named;
      user_uid = numbered;
      group = group;
      group_found = gfound;
      group_name = gnamed;
      group_gid = gnumbered;
    })

-- An identity that is admitted is that of a script's owner, for a script whose owner and group are not root,
-- or the job's fixed one, whose user and group the host knows under the same numbers.
pub validate_identity-admitted :
    (go : GoText) (text : PlanText) (host : HostInspector) (job : Job) (i : Identity)
    → validate_identity go text host job ≡ ok i
    → OwnedScript host job i ⊎ HostAccount host job i
unfolding validate_identity
validate_identity-admitted go text host job i h = by_mode job.identity.mode refl
  where
    chosen : IdentityMode → Result PlanError Identity
    chosen mode = elim mode [
      | script_owner ↦ validate_script_owner go text host job
      | fixed ↦ validate_fixed host job.identity
      | _ ↦ failure bad_identity_mode
    ]

    by_mode :
        (mode : IdentityMode)
        → job.identity.mode ≡ mode
        → OwnedScript host job i ⊎ HostAccount host job i
    by_mode script_owner q =
        inl (validate_script_owner-OwnedScript go text host job i (ap chosen (sym q) ∙ h))
    by_mode fixed q = inr (validate_fixed-HostAccount host job i (ap chosen (sym q) ∙ h))
    by_mode (other_identity s) q = absurd (cc (ap chosen (sym q) ∙ h))
