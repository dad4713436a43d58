-- ===== src/RunService/Retention/Laws.antt =====
-- What `trimLocked` of run_service.go leaves: it removes ended runs only, and trims logs.
use mathlib.Core.Option
use sync_bridge.Base.{
  ℕ, ◌-◌, ◌≡◌, refl, ◌⊎◌, inl, inr, true, List, [], ◌∷◌, Option, none, some, length, ltb, arith,
  lookup, delete, delete_all, elem, map_values, keys_where, Unique, All, same-cases, Bool-cases,
  lookup-delete_ne, lookup-delete_self, lookup-delete_all, lookup-map_values, map_values-Unique,
  elem-keys_where, delete-Unique, delete_all-Unique, Unique-All, delete-All, nat_keyed,
}
use sync_bridge.LogBuffer.{LogLimits}
use sync_bridge.RunService.State.{RunSnapshot, RunState, has_ended}
use sync_bridge.RunService.Retention.{
  trim_log, is_aged, drop_aged, terminal_snapshots, insert_by_finish, sort_by_finish, drop_oldest,
  trim_runs,
}

abbrev pub Runs : Type 0
Runs = List (ℕ × RunState)

-- The entry is there, and its run has ended.
abbrev pub Ended : Option RunState → Type 0
Ended none = ⊥
Ended (some r) = has_ended r ≡ true

-- Every entry of the second map is as in the first, or was that of an ended run and is gone.
abbrev pub OnlyEndedGone : Runs → Runs → Type 0
OnlyEndedGone before after =
    (id : ℕ)
    → (lookup id after ≡ lookup id before) ⊎ ((lookup id after ≡ none) × Ended (lookup id before))

-- The same where the logs are trimmed too.
abbrev pub Kept : ℕ → Option RunState → Option RunState → Type 0
Kept cutoff before after =
    (after ≡ Option.map (trim_log cutoff) before) ⊎ ((after ≡ none) × Ended before)

delete-OnlyEndedGone :
    (before after : Runs) (k : ℕ)
    → Ended (lookup k before)
    → OnlyEndedGone before after
    → OnlyEndedGone before (delete k after)
delete-OnlyEndedGone before after k e g id = elim (same-cases k id) [
  | inl q ↦ inr (rw (← q.1) (lookup-delete_self k after), rw (← q.1) e)
  | inr q ↦ rw (lookup-delete_ne k id after q.1) (g id)
]

drop_oldest-OnlyEndedGone :
    (max_runs : ℕ) (ts : List RunSnapshot) (before after : Runs)
    → All (λ t. Ended (lookup t.id before)) ts
    → OnlyEndedGone before after
    → OnlyEndedGone before (drop_oldest max_runs ts after)
unfolding drop_oldest
drop_oldest-OnlyEndedGone m [] before after a g = g
drop_oldest-OnlyEndedGone m (t ∷ ts) before after a g =
    elim (Bool-cases (ltb m (length (t ∷ ts)))) [
      | inl q ↦ rw q (
          drop_oldest-OnlyEndedGone m ts before (delete t.id after) a.1
            (delete-OnlyEndedGone before after t.id a.0 g))
      | inr q ↦ rw q g
    ]

-- Every run is filed under its own ID.
abbrev pub IsNamed : Runs → Type 0
IsNamed = All (λ (x : ℕ × RunState). x.1.snapshot.id ≡ x.0)

-- The snapshots of the second loop are those of ended runs in the map.
terminal_snapshots-All :
    (runs all_runs : Runs)
    → IsNamed runs
    → All (λ (x : ℕ × RunState). lookup x.0 all_runs ≡ some x.1) runs
    → All (λ t. Ended (lookup t.id all_runs)) (terminal_snapshots runs)
unfolding terminal_snapshots
terminal_snapshots-All [] all_runs n a = tt
terminal_snapshots-All ((id, r) ∷ runs) all_runs n a = elim (Bool-cases (has_ended r)) [
  | inl q ↦ rw (q, n.0, a.0) (q, terminal_snapshots-All runs all_runs n.1 a.1)
  | inr q ↦ rw q (terminal_snapshots-All runs all_runs n.1 a.1)
]

insert_by_finish-All {κ} :
    (P : RunSnapshot → Type κ) (t : RunSnapshot) (ts : List RunSnapshot)
    → P t
    → All P ts
    → All P (insert_by_finish t ts)
unfolding insert_by_finish
insert_by_finish-All P t [] p a = (p, tt)
insert_by_finish-All P t (u ∷ us) p a = elim (Bool-cases (ltb u.finished_at t.finished_at)) [
  | inl q ↦ rw q (a.0, insert_by_finish-All P t us p a.1)
  | inr q ↦ rw q (p, a)
]

pub sort_by_finish-All {κ} :
    (P : RunSnapshot → Type κ) (ts : List RunSnapshot) → All P ts → All P (sort_by_finish ts)
unfolding sort_by_finish
sort_by_finish-All P [] a = tt
sort_by_finish-All P (t ∷ ts) a =
    insert_by_finish-All P t (sort_by_finish ts) a.0 (sort_by_finish-All P ts a.1)

map_values-IsNamed : (c : ℕ) (runs : Runs) → IsNamed runs → IsNamed (map_values (trim_log c) runs)
unfolding map_values trim_log
map_values-IsNamed c [] n = tt
map_values-IsNamed c ((id, r) ∷ runs) n = (n.0, map_values-IsNamed c runs n.1)

delete_all-IsNamed : (ks : List ℕ) (runs : Runs) → IsNamed runs → IsNamed (delete_all ks runs)
unfolding delete_all
delete_all-IsNamed [] runs n = n
delete_all-IsNamed (k ∷ ks) runs n = delete_all-IsNamed ks (delete k runs) (delete-All _ k runs n)

drop_oldest-Unique :
    (m : ℕ) (ts : List RunSnapshot) (runs : Runs) → Unique runs → Unique (drop_oldest m ts runs)
unfolding drop_oldest
drop_oldest-Unique m [] runs u = u
drop_oldest-Unique m (t ∷ ts) runs u = elim (Bool-cases (ltb m (length (t ∷ ts)))) [
  | inl q ↦ rw q (drop_oldest-Unique m ts (delete t.id runs) (delete-Unique t.id runs u))
  | inr q ↦ rw q u
]

drop_oldest-IsNamed :
    (m : ℕ) (ts : List RunSnapshot) (runs : Runs) → IsNamed runs → IsNamed (drop_oldest m ts runs)
unfolding drop_oldest
drop_oldest-IsNamed m [] runs n = n
drop_oldest-IsNamed m (t ∷ ts) runs n = elim (Bool-cases (ltb m (length (t ∷ ts)))) [
  | inl q ↦ rw q (drop_oldest-IsNamed m ts (delete t.id runs) (delete-All _ t.id runs n))
  | inr q ↦ rw q n
]

pub drop_aged-Unique : (c : ℕ) (runs : Runs) → Unique runs → Unique (drop_aged c runs)
unfolding drop_aged
drop_aged-Unique c runs u = delete_all-Unique _ _ (map_values-Unique (trim_log c) runs u)

pub drop_aged-IsNamed : (c : ℕ) (runs : Runs) → IsNamed runs → IsNamed (drop_aged c runs)
unfolding drop_aged
drop_aged-IsNamed c runs n = delete_all-IsNamed _ _ (map_values-IsNamed c runs n)

Ended-trim : (c : ℕ) (o : Option RunState) → Ended (Option.map (trim_log c) o) → Ended o
unfolding trim_log
Ended-trim c none e = e
Ended-trim c (some r) e = e

is_aged-Ended : (c : ℕ) (r : RunState) → is_aged c r ≡ true → has_ended r ≡ true
unfolding is_aged
is_aged-Ended c r h = ground arith

drop_aged-Kept :
    (c id : ℕ) (runs : Runs) → Unique runs → Kept c (lookup id runs) (lookup id (drop_aged c runs))
unfolding drop_aged
drop_aged-Kept c id runs u = elim (Bool-cases (elem id (keys_where (is_aged c) trimmed))) [
  | inl q ↦
      let (r, found, aged) =
        elem-keys_where (is_aged c) id trimmed (map_values-Unique (trim_log c) runs u) q in
      inr (
        rw (lookup-delete_all (keys_where (is_aged c) trimmed) id trimmed) (rw q),
        Ended-trim c (lookup id runs)
            (rw (← lookup-map_values (trim_log c) id runs) (rw found (is_aged-Ended c r aged))),
      )
  | inr q ↦ inl (
      rw (lookup-delete_all (keys_where (is_aged c) trimmed) id trimmed)
        (rw q (lookup-map_values (trim_log c) id runs)))
]
  where
    trimmed : Runs
    trimmed = map_values (trim_log c) runs

module _ (now : ℕ) (limits : LogLimits) (runs : Runs) (u : Unique runs) (n : IsNamed runs) where
  pub trim_runs-Unique : Unique (trim_runs now limits runs)
  unfolding trim_runs
  trim_runs-Unique =
      drop_oldest-Unique limits.max_runs _ _ (drop_aged-Unique (now - limits.max_age) runs u)

  pub trim_runs-IsNamed : IsNamed (trim_runs now limits runs)
  unfolding trim_runs
  trim_runs-IsNamed =
      drop_oldest-IsNamed limits.max_runs _ _ (drop_aged-IsNamed (now - limits.max_age) runs n)

  -- Trimming keeps every run that has not ended, and changes nothing of a run it keeps but the log.
  pub trim_runs-Kept :
      (id : ℕ)
      → Kept (now - limits.max_age) (lookup id runs) (lookup id (trim_runs now limits runs))
  unfolding trim_runs
  trim_runs-Kept id = elim (gone id) [
    | inl e ↦ rw e (drop_aged-Kept (now - limits.max_age) id runs u)
    | inr (e, ended) ↦ inr (
      e,
      earlier (lookup id runs) (lookup id kept) (drop_aged-Kept (now - limits.max_age) id runs u)
          ended,
    )
  ]
    where
      kept : Runs
      kept = drop_aged (now - limits.max_age) runs

      gone :
          OnlyEndedGone kept
            (drop_oldest limits.max_runs (sort_by_finish (terminal_snapshots kept)) kept)
      gone =
          drop_oldest-OnlyEndedGone limits.max_runs (sort_by_finish (terminal_snapshots kept)) kept
            kept
            (sort_by_finish-All _ _ (
              terminal_snapshots-All kept kept (drop_aged-IsNamed (now - limits.max_age) runs n)
                (Unique-All kept (drop_aged-Unique (now - limits.max_age) runs u))))
            (λ i. inl refl)

      earlier : (o o' : Option RunState) → Kept (now - limits.max_age) o o' → Ended o' → Ended o
      earlier o o' (inl e) ended = Ended-trim (now - limits.max_age) o (rw e at ended)
      earlier o o' (inr (e, ended')) ended = ended'
