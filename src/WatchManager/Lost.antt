-- ===== src/WatchManager/Lost.antt =====
-- A watcher of watch_manager.go that is degraded between the two sections of `Reconcile`.
use sync_bridge.WatchManager.Reconcile.{
  Wanted, reconcile_wanted, begin, prepare, conclude, finish, publish_set, close, swaps,
  swap_active, fill_missing, clear_valid, start_all, Swap, to_create, swap_one, adopt, serves,
  handle_serves, ReconcileError, keep, is_closed, create_one, refs, refused_jobs,
}
use sync_bridge.WatchManager.Spec.{WatchSpec}
use sync_bridge.WatchManager.State.{
  WatchHost, WatchError, WatchManager, degrade, publish_error, stop_all, publish_any, stop,
  is_degraded, flag,
}
use sync_bridge.Text.{GoText}
use sync_bridge.Base.{
  ◌≡◌, refl, ℤ, ℕ, some, ◌∷◌, [], insert, true, int_keyed, lookup, false, none, same_refl,
  nat_keyed, ap, Bool, if◌then◌else◌, lookup-insert_self, ◌&&◌, ◌∙◌, subst, Option, not, sym,
  lookup-delete_self,
}

module _ (go : GoText) (host : WatchHost) (spec : WatchSpec) (err : WatchError)
    (rest : WatchManager) (id : ℤ) (h : ℕ) where
  -- A manager with one watcher.
  abbrev one_watcher : WatchManager
  one_watcher = record rest { active = (id, some h) ∷ [] }

  abbrev one_job : Wanted
  one_job = record { desired = (id, spec) ∷ []; invalid = [] }

  abbrev degraded_one : WatchManager
  degraded_one = record one_watcher {
    errors = insert id err rest.errors;
    degraded = insert id true rest.degraded;
  }

  degrade-one : rest.closed ≡ false → degrade id h err one_watcher ≡ degraded_one
  unfolding degrade publish_error publish_any lookup
  degrade-one open_now = simp (same_refl id, same_refl h, open_now) refl

  marked : is_degraded id degraded_one ≡ true
  marked = ap flag (lookup-insert_self id true rest.degraded)

  none_kept : Swap
  none_kept = record { next = []; stopped = []; broke = rest.panicked }

  keep_same-degraded :
      (served degraded : Bool)
      → degraded ≡ true
      → (if served && not degraded then keep id (some h) none_kept else none_kept) ≡ none_kept
  keep_same-degraded true degraded q = rw q refl
  keep_same-degraded false degraded q = refl

  asked_one : lookup id one_job.desired ≡ some spec
  unfolding lookup
  asked_one = rw (same_refl id) refl

  swaps-one : swaps one_job [] degraded_one ≡ none_kept
  unfolding swaps swap_active lookup none_kept
  swaps-one =
      ap (λ o. swap_one degraded_one id (some h) none o none none_kept) asked_one
      ∙ keep_same-degraded (handle_serves spec (lookup h rest.handles))
          (is_degraded id degraded_one) marked

  publish_set-one :
      let result = publish_set one_job [] degraded_one in
      (result.active ≡ (id, none) ∷ [])
      × (result.handles ≡ rest.handles)
      × (is_degraded id result ≡ false)
      × (result.closed ≡ rest.closed)
  unfolding publish_set fill_missing clear_valid start_all stop_all lookup none_kept insert
  publish_set-one =
      subst One (sym swaps-one)
        (refl, refl, ap flag (lookup-delete_self id (insert id true rest.degraded)), refl)
    where
      One : Swap → Type 0
      One s =
          let result = stop_all s.stopped (adopt one_job [] s degraded_one) in
          (result.active ≡ (id, none) ∷ [])
          × (result.handles ≡ rest.handles)
          × (is_degraded id result ≡ false)
          × (result.closed ≡ rest.closed)

  close-nil :
      (m : WatchManager) → m.closed ≡ false → m.active ≡ (id, none) ∷ [] → (close m).panicked ≡ true
  unfolding close stop_all stop
  close-nil m open_now one = simp (open_now, one) refl

  -- A job that is asked for and has a watcher that serves, which is degraded while `Reconcile` does not hold its
  -- lock. The watcher is neither kept nor stopped: the job's entry becomes nil, all handles are as they
  -- were, no error is returned, the degradation is forgotten, and `Close` then panics.
  pub reconcile_wanted-loses :
      rest.closed ≡ false
      → serves id spec one_watcher ≡ true
      → let result = reconcile_wanted go host one_job (degrade id h err) one_watcher in
        (result.0.active ≡ (id, none) ∷ [])
        × (result.0.handles ≡ rest.handles)
        × (is_degraded id result.0 ≡ false)
        × (result.1 ≡ none)
        × ((close result.0).panicked ≡ true)
  unfolding reconcile_wanted begin prepare to_create conclude finish
  reconcile_wanted-loses open_now good =
      let made : reconcile_wanted go host one_job (degrade id h err) one_watcher
          ≡ (publish_set one_job [] degraded_one, none) =
        ap
          (λ b.
            if b
            then (one_watcher, some is_closed)
            else (let (m', create) = begin one_job.desired one_watcher in
                conclude one_job (degrade id h err) (prepare go host create [] m')))
          open_now
        ∙ ap
            (λ (b : Bool).
              let c = create_one b id spec (record { create = []; gen = rest.next_gen }) in
              conclude one_job (degrade id h err)
                (prepare go host c.create [] (record one_watcher { next_gen = c.gen })))
            good
        ∙ ap (finish one_job []) (degrade-one open_now)
        ∙ ap
            (λ b.
              if b
              then (stop_all (refs []) degraded_one, some is_closed)
              else (publish_set one_job [] degraded_one, refused_jobs one_job.invalid))
            open_now in
      let (active, handles, flagged, closed) = publish_set-one in
      subst Lost (sym made) (
        active,
        handles,
        flagged,
        refl,
        close-nil (publish_set one_job [] degraded_one) (closed ∙ open_now) active,
      )
    where
      Lost : WatchManager × Option ReconcileError → Type 0
      Lost result =
          (result.0.active ≡ (id, none) ∷ [])
          × (result.0.handles ≡ rest.handles)
          × (is_degraded id result.0 ≡ false)
          × (result.1 ≡ none)
          × ((close result.0).panicked ≡ true)
