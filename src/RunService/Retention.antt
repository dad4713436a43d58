-- ===== src/RunService/Retention.antt =====
-- `trimLocked` and `prune` of run_service.go.
pub mod Laws
use sync_bridge.Base.{
  ℕ, ◌-◌, Bool, ◌&&◌, List, [], ◌∷◌, length, ltb, delete, delete_all, map_values, keys_where,
  if◌then◌else◌, nat_keyed,
}
use sync_bridge.LogBuffer.{LogLimits, trim_before}
use sync_bridge.RunService.State.{RunSnapshot, RunState, Service, has_ended}

unfoldable pub trim_log : ℕ → RunState → RunState
trim_log cutoff run = record run { log = trim_before cutoff run.log }

-- Ended before the cutoff.
unfoldable pub is_aged : ℕ → RunState → Bool
is_aged cutoff run = has_ended run && ltb run.snapshot.finished_at cutoff

-- The first loop.
unfoldable pub drop_aged : ℕ → List (ℕ × RunState) → List (ℕ × RunState)
unfolding trim_log is_aged
drop_aged cutoff runs =
    let trimmed = map_values (trim_log cutoff) runs in
    delete_all (keys_where (is_aged cutoff) trimmed) trimmed

-- The second loop: the snapshots of the ended runs.
unfoldable pub terminal_snapshots : List (ℕ × RunState) → List RunSnapshot
terminal_snapshots [] = []
terminal_snapshots ((id, run) ∷ runs) =
    let rest = terminal_snapshots runs in if has_ended run then run.snapshot ∷ rest else rest

-- `sort.Slice` by the time of the end, by insertion.
unfoldable pub insert_by_finish : RunSnapshot → List RunSnapshot → List RunSnapshot
insert_by_finish t [] = t ∷ []
insert_by_finish t (u ∷ us) =
    if ltb u.finished_at t.finished_at then u ∷ insert_by_finish t us else t ∷ u ∷ us

unfoldable pub sort_by_finish : List RunSnapshot → List RunSnapshot
unfolding insert_by_finish
sort_by_finish [] = []
sort_by_finish (t ∷ ts) = insert_by_finish t (sort_by_finish ts)

-- `for len(terminal) > s.limits.MaxRuns`
unfoldable pub drop_oldest : ℕ → List RunSnapshot → List (ℕ × RunState) → List (ℕ × RunState)
drop_oldest max_runs [] runs = runs
drop_oldest max_runs (t ∷ ts) runs =
    let rest = drop_oldest max_runs ts (delete t.id runs) in
    if ltb max_runs (length (t ∷ ts)) then rest else runs

unfoldable pub trim_runs : ℕ → LogLimits → List (ℕ × RunState) → List (ℕ × RunState)
unfolding drop_aged sort_by_finish terminal_snapshots drop_oldest
trim_runs now limits runs =
    let kept = drop_aged (now - limits.max_age) runs in
    drop_oldest limits.max_runs (sort_by_finish (terminal_snapshots kept)) kept

unfoldable pub trim_locked : ℕ → Service → Service
unfolding trim_runs
trim_locked now s = record s { runs = trim_runs now s.limits s.runs }

-- `prune`
unfoldable pub prune : ℕ → Service → Service
unfolding trim_locked
prune now s = trim_locked now s
