-- ===== src/RunService/Consistency/Finishing.antt =====
-- `finishLocked` of run_service.go keeps the slots consistent.
use sync_bridge.Base.{
  ℕ, ◌-◌, ◌≡◌, refl, subst, ap, ◌∙◌, ◌⊎◌, inl, inr, true, false, List, Option, none, some, ℤ,
  lookup, insert, nat_keyed, int_keyed, Bool-cases, Option-cases, lookup-All, lookup-insert_self,
  insert-Unique, insert-All,
}
use sync_bridge.RunService.State.{
  RunStatus, no_status, RunSnapshot, RunResult, RunState, Phase, compiling, installing, installed,
  launching, executing, waiting, finishing, Service, has_ended, is_terminal_run_status,
}
use sync_bridge.RunService.Events.{publish_locked}
use sync_bridge.RunService.Retention.{trim_locked, trim_log}
use sync_bridge.RunService.Retention.Laws.{
  Kept, trim_runs-Unique, trim_runs-IsNamed, trim_runs-Kept,
}
use sync_bridge.RunService.Finish.{
  status_or_failed, finished_run, release, close_run, finish_live, finish_found, finish_locked,
  take_ticket, ticket_if_finished, promote, promote_next,
}
use sync_bridge.RunService.Consistency.{Present, Fits, IsResult, IsSlotted, IsConsistent}
use sync_bridge.RunService.Consistency.Slots.{Kept-IsSlotted}
use sync_bridge.RunService.Consistency.Closing.{
  close-IsSlotted, lookup-release_job, lookup-release_self, lookup-release-some,
}
use sync_bridge.RunService.Consistency.Promotion.{promote-IsConsistent}

pub take_ticket-IsConsistent :
    (snapshot : RunSnapshot) (logs : List ℕ) (s : Service)
    → IsConsistent s
    → IsConsistent (take_ticket snapshot logs s)
unfolding take_ticket
take_ticket-IsConsistent snapshot logs s v = record {
  slotted = v.slotted;
  behind = v.behind;
  safe = v.safe;
}

pub publish_locked-IsConsistent :
    (snapshot : RunSnapshot) (s : Service)
    → IsConsistent s
    → IsConsistent (publish_locked snapshot s)
unfolding publish_locked
publish_locked-IsConsistent snapshot s v = record {
  slotted = v.slotted;
  behind = v.behind;
  safe = v.safe;
}

pub trim_locked-IsConsistent :
    (now : ℕ) (s : Service) → IsConsistent s → IsConsistent (trim_locked now s)
unfolding trim_locked
trim_locked-IsConsistent now s v = record {
  slotted =
      Kept-IsSlotted v.slotted (now - s.limits.max_age) _
        (trim_runs-Unique now s.limits s.runs v.slotted.unique v.slotted.named)
        (trim_runs-IsNamed now s.limits s.runs v.slotted.unique v.slotted.named)
        (trim_runs-Kept now s.limits s.runs v.slotted.unique v.slotted.named);
  behind = v.behind;
  safe = v.safe;
}

-- The phases in which a worker's run may be finished by others.
abbrev pub MayEnd : Phase → Type 0
MayEnd (executing plan) = ⊥
MayEnd (waiting handle) = ⊥
MayEnd _ = Unit

Fits-ended :
    (ph : Phase) (o : Option RunState) (r : RunState)
    → MayEnd ph
    → has_ended r ≡ true
    → Fits ph o
    → Fits ph (some r)
Fits-ended compiling o r m e f = inl e
Fits-ended (installing p) o r m e f = inl e
Fits-ended (installed x p) o r m e f = inl e
Fits-ended (launching p) o r m e f = inl e
Fits-ended (executing p) o r m e f = absurd m
Fits-ended (waiting h) o r m e f = absurd m
Fits-ended (finishing res) o r m e f = f

pub finished_run-ended :
    (now : ℕ) (result : RunResult) (run : RunState)
    → IsResult result
    → has_ended (finished_run now result run) ≡ true
unfolding finished_run
finished_run-ended now result run (inl e) = ended result.status e
  where
    ended :
        (st : RunStatus)
        → is_terminal_run_status st ≡ true
        → is_terminal_run_status (status_or_failed st) ≡ true
    ended no_status e = refl
    ended _ e = e
finished_run-ended now result run (inr e) = rw e refl

-- The run is filed under its own ID.
finish_live-IsConsistent :
    (now : ℕ) (result : RunResult) (s : Service) (run : RunState)
    → IsConsistent s
    → IsResult result
    → ((ph : Phase) → lookup run.snapshot.id s.workers ≡ some ph → MayEnd ph)
    → lookup run.snapshot.id s.runs ≡ some run
    → has_ended run ≡ false
    → IsConsistent (finish_live now result run s)
unfolding finish_live close_run publish_locked trim_locked
finish_live-IsConsistent now result s run v ok may e alive =
    promote-IsConsistent (trim_locked now (publish_locked done.snapshot (close_run done s)))
      (Kept-IsSlotted closed (now - s.limits.max_age) _
        (trim_runs-Unique now s.limits _ closed.unique closed.named)
        (trim_runs-IsNamed now s.limits _ closed.unique closed.named)
        (trim_runs-Kept now s.limits _ closed.unique closed.named))
      job elsewhere v.safe (free (v.slotted.owned id run e alive))
  where
    id : ℕ
    id = run.snapshot.id

    job : ℤ
    job = run.snapshot.job_id

    done : RunState
    done = finished_run now result run

    fit : (ph : Phase) → lookup id s.workers ≡ some ph → Fits ph (some done)
    fit ph h =
        Fits-ended ph (lookup id s.runs) done (may ph h) (finished_run-ended now result run ok)
          (v.slotted.staffed id ph h)

    closed :
        IsSlotted
          (insert id done s.runs)
          (release job id s.active)
          (release job id s.pending)
          s.workers
    closed =
        close-IsSlotted v.slotted job id done (rw e (refl, alive)) (unfold finished_run in refl)
          (finished_run-ended now result run ok) fit

    elsewhere :
        (k : ℤ) (x : ℕ)
        → ¬ (job ≡ k)
        → lookup k (release job id s.pending) ≡ some x
        → Present (lookup k (release job id s.active))
    elsewhere k x n h =
        rw (lookup-release_job job k id s.active n)
          (v.behind k x (lookup-release-some job k id x s.pending h).0)

    free :
        (lookup job s.active ≡ some id) ⊎ (lookup job s.pending ≡ some id)
        → (lookup job (release job id s.active) ≡ none)
          ⊎ (lookup job (release job id s.pending) ≡ none)
    free (inl h) = inl (lookup-release_self job id s.active h)
    free (inr h) = inr (lookup-release_self job id s.pending h)

-- Finishing a run keeps the slots consistent if no executor has the run, or its worker reports.
pub finish_locked-IsConsistent :
    (now id : ℕ) (result : RunResult) (s : Service)
    → IsConsistent s
    → IsResult result
    → ((ph : Phase) → lookup id s.workers ≡ some ph → MayEnd ph)
    → IsConsistent (finish_locked now id result s).0
unfolding finish_locked finish_found
finish_locked-IsConsistent now id result s v ok may = elim (Option-cases (lookup id s.runs)) [
  | inl e ↦ rw e v
  | inr (run, e) ↦ elim (Bool-cases (has_ended run)) [
    | inl q ↦ rw (e, finish_found, q) v
    | inr q ↦ rw (e, finish_found, q) (live run e q (lookup-All _ s.runs id run v.slotted.named e))
  ]
]
  where
    live :
        (run : RunState)
        → lookup id s.runs ≡ some run
        → has_ended run ≡ false
        → run.snapshot.id ≡ id
        → IsConsistent (finish_live now result run s)
    live run e q name =
        finish_live-IsConsistent now result s run v ok (λ ph h. may ph (rw name at h))
          (ap (λ i. lookup i s.runs) name ∙ e) q

pub ticket_if_finished-IsConsistent :
    (x : Service × Option RunState) → IsConsistent x.0 → IsConsistent (ticket_if_finished x)
unfolding ticket_if_finished
ticket_if_finished-IsConsistent (s, none) v = v
ticket_if_finished-IsConsistent (s, some run) v = take_ticket-IsConsistent run.snapshot _ s v

-- Forgotten, or ended.
abbrev pub Gone : Option RunState → Type 0
Gone none = Unit
Gone (some r) = has_ended r ≡ true

Gone-Kept : (c : ℕ) (o o' : Option RunState) → Kept c o o' → Gone o → Gone o'
unfolding trim_log
Gone-Kept c none o' (inl e) g = rw e tt
Gone-Kept c (some r) o' (inl e) g = rw e g
Gone-Kept c o o' (inr (e, ended)) g = rw e tt

finish_live-Gone :
    (now : ℕ) (result : RunResult) (s : Service) (run : RunState)
    → IsConsistent s
    → IsResult result
    → lookup run.snapshot.id s.runs ≡ some run
    → Gone (lookup run.snapshot.id (finish_live now result run s).runs)
unfolding finish_live close_run publish_locked trim_locked promote
finish_live-Gone now result s run v ok e =
    promoted (lookup run.snapshot.job_id (release run.snapshot.job_id run.snapshot.id s.pending))
  where
    done : RunState
    done = finished_run now result run

    middle : Service
    middle = trim_locked now (publish_locked done.snapshot (close_run done s))

    name : done.snapshot.id ≡ run.snapshot.id
    name = unfold finished_run in refl

    trimmed : Gone (lookup run.snapshot.id middle.runs)
    trimmed =
        Gone-Kept (now - s.limits.max_age) _ _
          (trim_runs-Kept now s.limits (insert run.snapshot.id done s.runs)
            (insert-Unique run.snapshot.id done s.runs v.slotted.unique)
            (insert-All _ run.snapshot.id done s.runs name v.slotted.named) run.snapshot.id)
          (rw (lookup-insert_self run.snapshot.id done s.runs)
            (finished_run-ended now result run ok))

    promoted :
        (o : Option ℕ)
        → Gone (lookup run.snapshot.id (promote_next run.snapshot.job_id middle o).runs)
    promoted none = unfold promote_next in trimmed
    promoted (some next) = unfold promote_next in trimmed

-- Behind `finishLocked` the run has ended or is forgotten.
pub finish_locked-Gone :
    (now id : ℕ) (result : RunResult) (s : Service)
    → IsConsistent s
    → IsResult result
    → Gone (lookup id (finish_locked now id result s).0.runs)
unfolding finish_locked finish_found
finish_locked-Gone now id result s v ok = elim (Option-cases (lookup id s.runs)) [
  | inl e ↦ rw (e, finish_found) (rw e tt)
  | inr (run, e) ↦ elim (Bool-cases (has_ended run)) [
    | inl q ↦ rw (e, finish_found, q) (rw e q)
    | inr q ↦ rw (e, finish_found, q) (live run e (lookup-All _ s.runs id run v.slotted.named e))
  ]
]
  where
    live :
        (run : RunState)
        → lookup id s.runs ≡ some run
        → run.snapshot.id ≡ id
        → Gone (lookup id (finish_live now result run s).runs)
    live run e name =
        subst (λ i. Gone (lookup i (finish_live now result run s).runs)) name
          (finish_live-Gone now result s run v ok (ap (λ i. lookup i s.runs) name ∙ e))

pub ticket_if_finished-runs :
    (x : Service × Option RunState) → (ticket_if_finished x).runs ≡ x.0.runs
unfolding ticket_if_finished take_ticket
ticket_if_finished-runs (s, none) = refl
ticket_if_finished-runs (s, some run) = refl
