-- ===== src/WatchManager/Spec.antt =====
-- `watchSpecFor`, `sameWatchSpec` and `matchesWatch` of watch_manager.go. A duration is an int64 number
-- of nanoseconds, whose product with a second wraps.
use sync_bridge.Base.{
  second, ℕ, ◌*◌, String, Bool, true, false, not, ◌&&◌, ◌||◌, List, [], ◌∷◌, ℤ, pos, int_ltb,
  times64, ◌==◌, nat_keyed, int_keyed, string_keyed, if◌then◌else◌,
}
use sync_bridge.Job.{Job, job_watch_source}
use sync_bridge.Text.{GoText, split_csv}

pub record WatchSpec : Type 0 where
  pub revision : ℕ
  pub generation : ℕ
  pub source : String
  pub view_source : String
  pub mode : String
  pub debounce : ℤ
  pub poll : ℤ
  pub globs : List String

-- The duration of so many seconds, or the default where it is not positive.
abbrev pub positive_or : ℤ → ℤ → ℤ
positive_or seconds fallback =
    let d = times64 seconds second in if int_ltb (pos 0) d then d else fallback

abbrev pub is_watch_mode : String → Bool
is_watch_mode mode = mode == "event" || mode == "poll" || mode == "hybrid"

abbrev pub mode_or_hybrid : String → String
mode_or_hybrid mode = if mode == "" then "hybrid" else mode

pub data SpecError : Type 0 where
  source_required bad_watch_mode : SpecError

pub data SpecResult : Type 0 where
  spec_of : WatchSpec → SpecResult
  spec_error : SpecError → SpecResult

-- The view of the source is filled in by the caller.
unfoldable pub watch_spec_for : GoText → Job → SpecResult
unfolding split_csv job_watch_source
watch_spec_for go job =
    let source = go.trim_space (job_watch_source job) in
    let mode = mode_or_hybrid job.watch_mode in
    if source == ""
    then spec_error source_required
    else if not (is_watch_mode mode)
    then spec_error bad_watch_mode
    else spec_of (record {
      revision = job.revision;
      generation = 0;
      source = source;
      view_source = "";
      mode = mode;
      debounce = positive_or job.debounce (pos (10 * second));
      poll = positive_or job.poll_sec (pos (300 * second));
      globs = split_csv go job.watch_glob;
    })

abbrev pub same_globs : List String → List String → Bool
same_globs [] [] = true
same_globs (a ∷ more) (b ∷ others) = (a == b) && same_globs more others
same_globs _ _ = false

-- All but the generation.
unfoldable pub same_watch_spec : WatchSpec → WatchSpec → Bool
same_watch_spec a b =
    (a.revision == b.revision)
    && (a.source == b.source)
    && (a.view_source == b.view_source)
    && (a.mode == b.mode)
    && (a.debounce == b.debounce)
    && (a.poll == b.poll)
    && same_globs a.globs b.globs

abbrev pub any_glob : GoText → List String → String → Bool
any_glob go [] name = false
any_glob go (glob ∷ more) name = go.glob_match (go.trim_space glob) name || any_glob go more name

unfoldable pub matches_watch : GoText → List String → String → Bool
matches_watch go [] path = true
matches_watch go (glob ∷ more) path = any_glob go (glob ∷ more) (go.file_base path)
