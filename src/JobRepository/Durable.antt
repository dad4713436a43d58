-- ===== src/JobRepository/Durable.antt =====
-- A change that returns no error is in the file.
use sync_bridge.Base.{
  ℕ, String, List, [], ◌∷◌, Option, none, some, ℤ, int_ltb, int64_suc, insert, ◌==◌, int_keyed,
  nat_keyed, string_keyed, if◌then◌else◌, ◌≡◌, refl, Bool-cases, Option-cases, arith, inl, inr, sym,
  ◌∙◌, ap, map,
}
use Prim.Native.String.{◌++◌}
use sync_bridge.Job.{Job}
use sync_bridge.JobRepository.{
  JobRepository, RepositoryError, replace_jobs, replace_locked, migrated,
}
use sync_bridge.AtomicFile.{
  FileSystem, FileOwner, ReadResult, not_exist, unreadable, bytes, atomic_write_file_with_fs,
}
use sync_bridge.AtomicFile.Effect.{Lawful, atomic_write_file_with_fs-IsAtomic}
use sync_bridge.JobRepository.Operations.{
  Environment, Answer, load_locked, load_text, load_v2, migrate_legacy_locked, migrate_replaced,
  persist_candidate_locked, persist_error, create_new, update_found, updated_job,
}
use sync_bridge.JobRepository.RoundTrip.{stored}

replace_jobs-path :
    (js : List Job) (r : JobRepository) → (replace_jobs js r).repository.path ≡ r.path
unfolding replace_jobs
replace_jobs-path [] r = refl
replace_jobs-path (job ∷ more) r = ground (
  arith,
  replace_jobs-path more (record r {
    next = if int_ltb job.id r.next then r.next else int64_suc job.id;
    jobs = insert job.id job r.jobs;
  }),
)

replace_locked-path :
    (next : ℤ) (js : List Job) (r : JobRepository)
    → (replace_locked next js r).repository.path ≡ r.path
unfolding replace_locked
replace_locked-path next js r =
    ground (arith, replace_jobs-path js (record r { next = next; jobs = [] }))

module _ {S : Type 0} (fs : FileSystem S) (env : Environment S) where
  migrate_legacy_locked-path :
      (text : String) (r : JobRepository) (s : S)
      → (migrate_legacy_locked fs env text r s).1.repository.path ≡ r.path
  unfolding migrate_legacy_locked migrate_replaced
  migrate_legacy_locked-path text r s = elim (Option-cases (env.parse_legacy text)) [
    | inl q ↦ ground (arith, q)
    | inr (legacy, q) ↦
        ground (arith, q, replace_locked-path legacy.next (map migrated legacy.jobs) r)
  ]

  load_text-path :
      (text : String) (r : JobRepository) (s : S)
      → (load_text fs env text r s).1.repository.path ≡ r.path
  unfolding load_text load_v2
  load_text-path text r s = elim (Option-cases (env.parse_v2 text)) [
    | inl q ↦ ground (arith, q, migrate_legacy_locked-path text r s)
    | inr (store, q) ↦
        ground (
          arith,
          q,
          migrate_legacy_locked-path text r s,
          replace_locked-path store.next store.jobs r,
        )
  ]

  pub load_locked-path :
      (r : JobRepository) (s : S) → (load_locked fs env r s).1.repository.path ≡ r.path
  unfolding load_locked
  load_locked-path r s = read (fs.read_file r.path s) refl
    where
      read :
          (found : ReadResult)
          → fs.read_file r.path s ≡ found
          → (load_locked fs env r s).1.repository.path ≡ r.path
      read not_exist q = rw (q, load_locked) refl
      read unreadable q = rw (q, load_locked) refl
      read (bytes text) q = rw (q, load_locked) (load_text-path text r s)

  -- The file holds the encoding of these jobs.
  abbrev pub Holds : String → ℤ → List (ℤ × Job) → S → Type 0
  Holds path next jobs s =
      (d : String) × (env.marshal (stored next jobs) ≡ some d)
      × (fs.read_file path s ≡ bytes (d ++ "\n"))

  pub persist_candidate_locked-Holds :
      (lawful : Lawful fs) (next : ℤ) (jobs : List (ℤ × Job)) (r : JobRepository) (s : S)
      → (persist_candidate_locked fs env next jobs r s).1 ≡ none
      → Holds r.path next jobs (persist_candidate_locked fs env next jobs r s).0
  unfolding persist_candidate_locked
  persist_candidate_locked-Holds lawful next jobs r s h =
      elim (Option-cases (env.marshal (stored next jobs))) [
        | inl q ↦ absurd (ground (arith, q))
        | inr (d, q) ↦
            let done = atomic_write_file_with_fs fs r.path (d ++ "\n") 384 r.owner s in
            let opened : persist_candidate_locked fs env next jobs r s
                ≡ (done.0, persist_error done.1) =
              rw (q, persist_candidate_locked) refl in
            let fine : done.1 ≡ none =
              cleared done.1 (sym (ap (λ (x : S × Option RepositoryError). x.1) opened) ∙ h) in
            elim (atomic_write_file_with_fs-IsAtomic fs lawful r.path (d ++ "\n") 384 r.owner s).0 [
              | inl w ↦ (
                d,
                q,
                ap (λ (x : S × Option RepositoryError). fs.read_file r.path x.0) opened ∙ w,
              )
              | inr w ↦ absurd (w.1 fine)
            ]
      ]
    where
      cleared : (o : Option sync_bridge.AtomicFile.WriteError) → persist_error o ≡ none → o ≡ none
      cleared none p = refl
      cleared (some e) p = absurd (cc p)

  -- Where the answer has no error, its jobs are in the file.
  abbrev pub IsDurable : String → S × Answer → Type 0
  IsDurable path (s, a) = a.err ≡ none → Holds path a.repository.next a.repository.jobs s

  pub create_new-IsDurable :
      (lawful : Lawful fs) (created : Job) (r : JobRepository) (s : S)
      → IsDurable r.path (create_new fs env created r s)
  unfolding create_new
  create_new-IsDurable lawful created r s =
      let jobs = insert created.id created r.jobs in
      let done = persist_candidate_locked fs env (int64_suc r.next) jobs r s in
      elim (Option-cases done.1) [
        | inr (e, q) ↦ rw (q, create_new) (λ h. absurd (cc h))
        | inl q ↦
            rw (q, create_new)
              (λ _. persist_candidate_locked-Holds lawful (int64_suc r.next) jobs r s q)
      ]

  pub update_found-IsDurable :
      (lawful : Lawful fs) (id : ℤ) (revision : ℕ) (job : Job) (r : JobRepository)
      (found : Option Job) (s : S)
      → IsDurable r.path (update_found fs env id revision job r found s)
  unfolding update_found
  update_found-IsDurable lawful id revision job r none s = λ h. absurd (cc h)
  update_found-IsDurable lawful id revision job r (some current) s =
      let jobs = insert id (updated_job id current job) r.jobs in
      let done = persist_candidate_locked fs env r.next jobs r s in
      elim (Bool-cases (current.revision == revision)) [
        | inr b ↦ rw (b, update_found) (λ h. absurd (cc h))
        | inl b ↦
            rw (b, update_found)
              (elim (Option-cases done.1) [
                | inr (e, q) ↦ rw q (λ h. absurd (cc h))
                | inl q ↦ rw q (λ _. persist_candidate_locked-Holds lawful r.next jobs r s q)
              ])
      ]
