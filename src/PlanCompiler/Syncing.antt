-- ===== src/PlanCompiler/Syncing.antt =====
-- What `compileSync` of execution_plan.go lets through.
use sync_bridge.Job.{SyncAction}
use sync_bridge.PlanCompiler.Types.{HostInspector, PlanText, HostPathInfo, path_not_host_canonical}
use sync_bridge.PlanCompiler.Argv.{
  sync_argv, is_destructive, rsync_options, rclone_options, rsync_argv, rclone_argv, rclone_verb,
  rsync_settings, rclone_settings,
}
use sync_bridge.Text.{GoText}
use sync_bridge.PlanCompiler.Compile.{compile_sync, Compiled}
use sync_bridge.PlanCompiler.Checks.{
  inspect_canonical_path, path_within, inspected, validate_sync_action_options, validate_argv,
  validate_absolute_canonical_path, directory_arg,
}
use Prim.Native.String.{◌++◌ as ◌<>◌}
use text.Mathlib.Text.{starts_with}
use text.Mathlib.TextEquality.{starts_with_iff}
use sync_bridge.Base.{
  none, some, String, ◌≢◌, ◌≡◌, ok, false, Bool, some, Option, true, ◌&&◌, refuse_if-ok, not, ◌==◌,
  if◌then◌else◌, ok-inj, refl, ◌||◌, string_keyed, subst, ◌∙◌, List, >>=-ok, ap, sym, same-cases,
  inl, inr, elem, elem-append_right, elem-if, elem-head, ◌∷◌, [], ◌++◌, elem-append_left, not-false,
  ◌⊎◌, arith,
}

both-true : (a b : Bool) → (not a || not b) ≡ false → (a ≡ true) × (b ≡ true)
both-true true true h = (refl, refl)
both-true true false h = absurd (cc h)
both-true false b h = absurd (cc h)

beq-ne : (x y : String) → (x == y) ≡ false → x ≢ y
beq-ne x y h e = absurd (cc (h, (string_keyed.same_iff x y).1 e))

-- A test of two paths that the host reports is one of the paths given.
at_paths :
    (test : String → String → Bool) {p p' q q' : String}
    → p ≡ p'
    → q ≡ q'
    → test p q ≡ false
    → test p' q' ≡ false
at_paths test {p = p} {q' = q'} e f h =
    subst (λ x. test x q' ≡ false) e (subst (λ y. test p y ≡ false) f h)

-- The host reports the path under its own name.
pub inspect_canonical_path-ok :
    (go : GoText) (host : HostInspector) (value : String) (info : HostPathInfo)
    → inspect_canonical_path go host value ≡ ok info
    → (host.inspect_path value ≡ some info) × (info.canonical_path ≡ value)
unfolding inspect_canonical_path
inspect_canonical_path-ok go host value info h =
    let (checked, valid, seen) = >>=-ok (validate_absolute_canonical_path go value) _ h in
    reported (host.inspect_path value) refl seen
  where
    reported :
        (o : Option HostPathInfo)
        → host.inspect_path value ≡ o
        → inspected value o ≡ ok info
        → (host.inspect_path value ≡ some info) × (info.canonical_path ≡ value)
    reported none q seen = absurd (cc seen)
    reported (some x) q seen =
        let (same, made) =
          refuse_if-ok (not (x.canonical_path == value)) path_not_host_canonical (ok x) seen in
        let eq = ok-inj made in
        (
          q ∙ ap some eq,
          ap (λ (i : HostPathInfo). i.canonical_path) (sym eq)
              ∙ (string_keyed.same_iff x.canonical_path value).0
                  (not-false (x.canonical_path == value) same),
        )

-- The second path lies below the first one: every other path below the root, and below any other path
-- what continues it behind a slash.
abbrev pub Below : String → String → Type 0
Below parent path =
    ((parent ≡ "/") × (path ≢ "/"))
    ⊎ ((parent ≢ "/") × ((rest : String) × ((parent <> "/") <> rest ≡ path)))

path_within-root : (path : String) → path ≢ "/" → path_within "/" path ≡ true
unfolding path_within
path_within-root path other = elim (same-cases path "/") [
  | inl q ↦ absurd (other q.1)
  | inr q ↦ ap not q.0
]

path_within-prefix :
    (parent path rest : String)
    → parent ≢ "/"
    → (parent <> "/") <> rest ≡ path
    → path_within parent path ≡ true
unfolding path_within
path_within-prefix parent path rest below p = elim (same-cases parent "/") [
  | inl q ↦ absurd (below q.1)
  | inr q ↦
      ap (λ b. if b then not (path == "/") else starts_with path (parent <> "/")) q.0
      ∙ (starts_with_iff path (parent <> "/")).1 (rest, p)
]

-- A path that the test refuses is not below.
path_within-Below : (parent path : String) → path_within parent path ≡ false → ¬ Below parent path
path_within-Below parent path h (inl (root, other)) =
    cc (h, ap (λ p. path_within p path) root, path_within-root path other)
path_within-Below parent path h (inr (below, (rest, p))) =
    cc (h, path_within-prefix parent path rest below p)

sync_argv-destructive :
    (go : GoText) (text : PlanText) (a : SyncAction) (dry_run : Bool) (args : List String × Bool)
    → sync_argv go text a dry_run ≡ ok args
    → args.1 ≡ is_destructive a
unfolding sync_argv
sync_argv-destructive go text a dry_run args h =
    let (checked, valid, made) = >>=-ok (validate_sync_action_options go a) _ h in
    sym (ap (λ (x : List String × Bool). x.1) (ok-inj made))

-- A mode that deletes at the destination or at the source, with the directory that must not be empty.
abbrev pub Guards : String → String → Bool → String → Type 0
Guards mode source empty guarded =
    (((mode ≡ "mirror") ⊎ (mode ≡ "move")) × (empty ≡ false) × (guarded ≡ source))
    ⊎ ((mode ≢ "mirror") × (mode ≢ "move") × (guarded ≡ ""))

is_destructive-Guards :
    (a : SyncAction) (empty : Bool) (guarded : String)
    → (is_destructive a && empty) ≡ false
    → guarded ≡ (if is_destructive a then a.source else "")
    → Guards a.mode a.source empty guarded
is_destructive-Guards a empty guarded full g = elim (same-cases a.mode "mirror") [
  | inl p ↦ inl (inl p.1, ground (arith, full, p.0), ground (arith, g, p.0))
  | inr p ↦ elim (same-cases a.mode "move") [
    | inl q ↦ inl (inr q.1, ground (arith, full, p.0, q.0), ground (arith, g, p.0, q.0))
    | inr q ↦ inr (p.1, q.1, ground (arith, g, p.0, q.0))
  ]
]

-- A sync that is compiled: source and destination differ and neither lies below the other. The host knows
-- the source as an existing directory under that path, and the destination, if it exists, as a
-- directory. If the mode is mirror or move, the source is not empty and is named as the directory that
-- must not be empty; in every other mode no such directory is named.
pub compile_sync-safe :
    (go : GoText) (text : PlanText) (host : HostInspector) (a : SyncAction) (dry_run : Bool)
    (out : Compiled)
    → compile_sync go text host a dry_run ≡ ok out
    → (source : HostPathInfo) × (destination : HostPathInfo) × (host.inspect_path a.source
        ≡ some source)
      × (host.inspect_path a.dest ≡ some destination)
      × (a.source ≢ a.dest)
      × (¬ Below a.source a.dest)
      × (¬ Below a.dest a.source)
      × (source.exists ≡ true)
      × (source.directory ≡ true)
      × ((destination.exists && not destination.directory) ≡ false)
      × Guards a.mode a.source source.empty out.non_empty_source_dir
unfolding compile_sync
compile_sync-safe go text host a dry_run out h =
    let (checked, valid, h1) = >>=-ok (validate_sync_action_options go a) _ h in
    let (source, s, h2) = >>=-ok (inspect_canonical_path go host a.source) _ h1 in
    let (destination, d, h3) = >>=-ok (inspect_canonical_path go host a.dest) _ h2 in
    let (differ, h4) = refuse_if-ok _ _ _ h3 in
    let (outside, h5) = refuse_if-ok _ _ _ h4 in
    let (inside, h6) = refuse_if-ok _ _ _ h5 in
    let (there, h7) = refuse_if-ok _ _ _ h6 in
    let (free, h8) = refuse_if-ok _ _ _ h7 in
    let (args, listed, h9) = >>=-ok (sync_argv go text a dry_run) _ h8 in
    let (full, h10) = refuse_if-ok _ _ _ h9 in
    let (whole, clean, h11) = >>=-ok (validate_argv args.0) _ h10 in
    let from = inspect_canonical_path-ok go host a.source source s in
    let to = inspect_canonical_path-ok go host a.dest destination d in
    let destroys = sync_argv-destructive go text a dry_run args listed in
    let (exists, directory) = both-true source.exists source.directory there in
    (
      source,
      destination,
      from.0,
      to.0,
      beq-ne a.source a.dest (at_paths (λ p q. p == q) from.1 to.1 differ),
      path_within-Below a.source a.dest (at_paths path_within from.1 to.1 outside),
      path_within-Below a.dest a.source (at_paths (λ p q. path_within q p) from.1 to.1 inside),
      exists,
      directory,
      free,
      is_destructive-Guards a source.empty out.non_empty_source_dir
          (subst (λ b. (b && source.empty) ≡ false) destroys full)
          (sym (ap (λ (c : Compiled). c.non_empty_source_dir) (ok-inj h11))
            ∙ ap (λ b. if b then a.source else "") destroys),
    )

rsync_options-dry_run :
    (go : GoText) (text : PlanText) (a : SyncAction)
    → elem "--dry-run" (rsync_options go text a true) ≡ true
unfolding rsync_options
rsync_options-dry_run go text a =
    elem-append_right "--dry-run" (rsync_settings go text a)
      ("--dry-run" ∷ "--itemize-changes" ∷ []) (elem-head "--dry-run" ("--itemize-changes" ∷ []))

rclone_options-dry_run :
    (go : GoText) (text : PlanText) (a : SyncAction)
    → elem "--dry-run" (rclone_options go text a true) ≡ true
unfolding rclone_options
rclone_options-dry_run go text a =
    elem-append_right "--dry-run" (rclone_settings go text a) ("--dry-run" ∷ [])
      (elem-head "--dry-run" [])

-- The arguments of a dry run have `--dry-run` among them, whichever the engine.
pub sync_argv-dry_run :
    (go : GoText) (text : PlanText) (a : SyncAction) (args : List String × Bool)
    → sync_argv go text a true ≡ ok args
    → elem "--dry-run" args.0 ≡ true
unfolding sync_argv rsync_argv rclone_argv
sync_argv-dry_run go text a args h =
    let (checked, valid, made) = >>=-ok (validate_sync_action_options go a) _ h in
    subst (λ (x : List String × Bool). elem "--dry-run" x.0 ≡ true) (ok-inj made)
      (elem-if "--dry-run" (a.engine == "rsync") (rsync_argv go text a true)
        (rclone_argv go text a true)
        (elem-append_right "--dry-run"
          ("rsync" ∷ "-a" ∷ "--info=progress2,stats2" ∷ "--human-readable" ∷ [])
          (rsync_options go text a true
            ++ ("--" ∷ directory_arg a.source ∷ directory_arg a.dest ∷ []))
          (elem-append_left "--dry-run" (rsync_options go text a true)
            ("--" ∷ directory_arg a.source ∷ directory_arg a.dest ∷ [])
            (rsync_options-dry_run go text a)))
        (elem-append_right "--dry-run"
          ("rclone"
            ∷ rclone_verb a.mode
            ∷ a.source
            ∷ a.dest
            ∷ "--progress"
            ∷ "--stats=1s"
            ∷ "--stats-one-line"
            ∷ [])
          (rclone_options go text a true) (rclone_options-dry_run go text a)))
