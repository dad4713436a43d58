-- ===== src/Scheduler.antt =====
-- cmd/syncbridge/scheduler.go: the cron registrations of the jobs. The cron engine is a parameter with a
-- state of its own, and so are `strings.Fields` and the outcome of `Start`. A map is walked in the order
-- of its entries. `reconcileMu` keeps `Reconcile` and `Close` apart, so that `closed` does not change
-- during a `Reconcile`, and a callback changes only `errors`.
use sync_bridge.Base.{
  ℕ, ◌+◌, String, Bool, true, false, not, ◌&&◌, ◌||◌, List, [], ◌∷◌, ◌++◌, Option, none, some, ℤ,
  pos, map, lookup, insert, delete, delete_all, ◌==◌, int_keyed, nat_keyed, string_keyed,
  if◌then◌else◌,
}
use Prim.Native.String.{◌++◌ as append_text}
use sync_bridge.Job.{
  Job, u64, Trigger, manual_trigger, cron_trigger, watch_trigger, other_trigger, SchedulerOwner,
  sync_bridge_owner,
}
use sync_bridge.RunService.State.{StartRunInput, RunOrigin, cron_origin}
pub mod Firing
pub mod Tests

pub record ScheduledJob : Type 0 where
  pub entry : ℤ
  pub revision : ℕ
  pub spec : String
  pub generation : ℕ

pub data ScheduleError : Type 0 where
  not_five_or_six_fields is_closed : ScheduleError
  not_added not_started : String → ScheduleError
  invalid_specs : List ℤ → ScheduleError

pub record Scheduler : Type 0 where
  pub entries : List (ℤ × ScheduledJob)
  pub errors : List (ℤ × ScheduleError)
  pub next_gen : ℕ
  pub closed : Bool

pub data AddOutcome : Type 0 where
  added_entry : ℤ → AddOutcome
  add_failed : String → AddOutcome

-- `cronEngine`: `add_func` gets the specification and what the callback is called with.
pub record CronEngine (C : Type 0) : Type 0 where
  pub add_func : String → ℤ → ℕ → ℕ → C → C × AddOutcome
  pub remove_entry : ℤ → C → C

abbrev pub same_trigger : Trigger → Trigger → Bool
same_trigger manual_trigger manual_trigger = true
same_trigger cron_trigger cron_trigger = true
same_trigger watch_trigger watch_trigger = true
same_trigger (other_trigger text) (other_trigger other) = text == other
same_trigger _ _ = false

abbrev pub owned_here : SchedulerOwner → Bool
owned_here sync_bridge_owner = true
owned_here _ = false

unfoldable pub scheduler_eligible : Job → Trigger → Bool
scheduler_eligible job trigger =
    job.enabled
    && not job.needs_review
    && owned_here job.scheduler_owner
    && same_trigger job.trigger trigger

-- `strings.Join(fields, " ")`
abbrev pub join_spaced : List String → String
join_spaced [] = ""
join_spaced (field ∷ []) = field
join_spaced (field ∷ other ∷ more) =
    append_text field (append_text " " (join_spaced (other ∷ more)))

abbrev pub normalize_cron_spec : List String → Option String
normalize_cron_spec (a ∷ b ∷ c ∷ d ∷ e ∷ []) =
    some (append_text "0 " (join_spaced (a ∷ b ∷ c ∷ d ∷ e ∷ [])))
normalize_cron_spec (a ∷ b ∷ c ∷ d ∷ e ∷ f ∷ []) = some (join_spaced (a ∷ b ∷ c ∷ d ∷ e ∷ f ∷ []))
normalize_cron_spec _ = none

-- What the jobs ask for, and those whose specification is refused.
pub record Wanted : Type 0 where
  pub desired : List (ℤ × ScheduledJob)
  pub invalid : List (ℤ × ScheduleError)

abbrev pub want_spec : Job → Wanted → Option String → Wanted
want_spec job w none = record w { invalid = insert job.id not_five_or_six_fields w.invalid }
want_spec job w (some spec) = record w {
  desired =
      insert job.id (record { entry = pos 0; revision = job.revision; spec = spec; generation = 0 })
        w.desired;
}

unfoldable pub wanted : (String → List String) → List Job → Wanted → Wanted
wanted fields [] w = w
wanted fields (job ∷ more) w = wanted fields more (
    if scheduler_eligible job cron_trigger
    then want_spec job w (normalize_cron_spec (fields job.cron))
    else w)

-- The registrations that are to stand, those to add and the engine's entries to remove.
pub record Plan : Type 0 where
  pub next : List (ℤ × ScheduledJob)
  pub added : List (ℤ × ScheduledJob)
  pub removed : List ℤ
  pub next_gen : ℕ

unfoldable pub plan_added : ℤ → ScheduledJob → Plan → Plan
plan_added id want p =
    let want' = record want { generation = u64 (p.next_gen + 1) } in
    record p {
      next_gen = u64 (p.next_gen + 1);
      next = insert id want' p.next;
      added = insert id want' p.added;
    }

unfoldable pub plan_current : ℤ → ScheduledJob → Option ScheduledJob → Plan → Plan
unfolding plan_added
plan_current id current none p = record p { removed = p.removed ++ (current.entry ∷ []) }
plan_current id current (some want) p =
    let replaced = plan_added id want p in
    if current.revision == want.revision && current.spec == want.spec
    then record p { next = insert id current p.next }
    else record replaced { removed = replaced.removed ++ (current.entry ∷ []) }

-- The loop over the registrations that stand.
unfoldable pub plan_entries : Wanted → List (ℤ × ScheduledJob) → Plan → Plan
unfolding plan_current
plan_entries w [] p = p
plan_entries w ((id, current) ∷ more) p = plan_entries w more (elim (lookup id w.invalid) [
  | some _ ↦ record p { next = insert id current p.next }
  | none ↦ plan_current id current (lookup id w.desired) p
])

-- The loop over what is asked for.
unfoldable pub plan_desired : List (ℤ × ScheduledJob) → List (ℤ × ScheduledJob) → Plan → Plan
unfolding plan_added
plan_desired entries [] p = p
plan_desired entries ((id, want) ∷ more) p =
    plan_desired entries more
      (elim (lookup id entries) [ some _ ↦ p | none ↦ plan_added id want p ])

unfoldable pub plan : Wanted → Scheduler → Plan
unfolding plan_entries plan_desired
plan w s = plan_desired s.entries w.desired (
    plan_entries w s.entries
      (record { next = []; added = []; removed = []; next_gen = s.next_gen }))

-- What the engine made of the plan, and the job whose registration it refused.
pub record Installed (C : Type 0) : Type 0 where
  pub engine : C
  pub result : Plan
  pub refused : Option (ℤ × String)

module _ {C : Type 0} (cron : CronEngine C) where
  abbrev pub remove_entries : List ℤ → C → C
  remove_entries [] c = c
  remove_entries (entry ∷ more) c = remove_entries more (cron.remove_entry entry c)

  -- `if installed.entry != 0 { s.cron.Remove(installed.entry) }`
  abbrev pub remove_installed : List (ℤ × ScheduledJob) → C → C
  remove_installed [] c = c
  remove_installed ((id, installed) ∷ more) c =
      remove_installed more
        (if installed.entry == pos 0 then c else cron.remove_entry installed.entry c)

  abbrev pub with_entry : ℤ → ScheduledJob → Plan → Plan
  with_entry id want p = record p { added = insert id want p.added; next = insert id want p.next }

  -- The loop of `AddFunc` over what is to be added.
  unfoldable pub install : List (ℤ × ScheduledJob) → Plan → C → Installed C
  install [] p c = record { engine = c; result = p; refused = none }
  install ((id, want) ∷ more) p c =
      let called = cron.add_func want.spec id want.revision want.generation c in
      elim called.1 [
        | add_failed text ↦ record {
          engine = remove_installed p.added called.0;
          result = p;
          refused = some (id, text);
        }
        | added_entry entry ↦
            install more (with_entry id (record want { entry = entry }) p) called.0
      ]

  -- The errors of the invalid jobs, and no errors of the others asked for.
  abbrev pub note_invalid :
      List (ℤ × ScheduleError) → List (ℤ × ScheduleError) → List (ℤ × ScheduleError)
  note_invalid [] errors = errors
  note_invalid ((id, err) ∷ more) errors = note_invalid more (insert id err errors)

  abbrev pub clear_valid :
      List (ℤ × ScheduleError)
      → List (ℤ × ScheduledJob)
      → List (ℤ × ScheduleError)
      → List (ℤ × ScheduleError)
  clear_valid invalid [] errors = errors
  clear_valid invalid ((id, want) ∷ more) errors =
      clear_valid invalid more
        (elim (lookup id invalid) [ some _ ↦ errors | none ↦ delete id errors ])

  abbrev pub joined_errors : List (ℤ × ScheduleError) → Option ScheduleError
  joined_errors [] = none
  joined_errors (error ∷ more) =
      some (invalid_specs (map (λ (x : ℤ × ScheduleError). x.0) (error ∷ more)))

  unfoldable pub commit : Wanted → Scheduler → Installed C → Scheduler × C × Option ScheduleError
  commit w s i = elim i.refused [
    | some (id, text) ↦ (
      record s { next_gen = i.result.next_gen; errors = insert id (not_added text) s.errors },
      i.engine,
      some (not_added text),
    )
    | none ↦ (
      record s {
        next_gen = i.result.next_gen;
        entries = i.result.next;
        errors = clear_valid w.invalid w.desired (note_invalid w.invalid s.errors);
      },
      remove_entries i.result.removed i.engine,
      joined_errors w.invalid,
    )
  ]

  -- `Reconcile`
  unfoldable pub reconcile :
      (String → List String) → List Job → Scheduler → C → Scheduler × C × Option ScheduleError
  unfolding plan install commit wanted
  reconcile fields jobs s c =
      let w = wanted fields jobs (record { desired = []; invalid = [] }) in
      let p = plan w s in
      if s.closed then (s, c, some is_closed) else commit w s (install p.added p c)

-- The first section of `fire`: what is started, if anything.
unfoldable pub fire : ℤ → ℕ → ℕ → Scheduler → Option StartRunInput
fire id revision generation s = elim (lookup id s.entries) [
  | none ↦ none
  | some current ↦
      if s.closed || not (current.revision == revision) || not (current.generation == generation)
      then none
      else some (record { job_id = id; revision = revision; origin = cron_origin; dry_run = false })
]

-- The second section, behind an error of `Start` that is not an overlap.
unfoldable pub fire_failed : ℤ → ℕ → String → Scheduler → Scheduler
fire_failed id generation text s = elim (lookup id s.entries) [
  | none ↦ s
  | some current ↦
      if current.generation == generation
      then record s { errors = insert id (not_started text) s.errors }
      else s
]

-- `Close`; the engine is stopped behind it.
unfoldable pub close : Scheduler → Scheduler
close s = if s.closed then s else record s { closed = true; entries = [] }
