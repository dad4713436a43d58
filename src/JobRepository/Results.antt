-- ===== src/JobRepository/Results.antt =====
-- What a change of job_repository.go means to whoever opens the file afterwards.
use sync_bridge.Base.{
  ℕ, String, some, ℤ, lookup, insert, int_keyed, nat_keyed, ◌≡◌, refl, Bool-cases, inl, inr, ◌∙◌,
  ◌⊎◌,
}
use Prim.Native.String.{◌++◌}
use sync_bridge.Job.{Job}
use sync_bridge.JobRepository.{JobRepository, JobStore}
use sync_bridge.AtomicFile.{FileSystem}
use sync_bridge.AtomicFile.Effect.{Lawful}
use sync_bridge.JobRepository.RoundTrip.{Encodes}
use sync_bridge.JobRepository.Operations.{
  Environment, Answer, with_exclusive_file_lock, updated_job,
}

module _ {S : Type 0} (fs : FileSystem S) (env : Environment S) where
  -- Taking and releasing the lock of a path leaves the content of that path.
  pub record LawfulLock : Type 0 where
    pub acquire-keeps :
        (p : String) (s : S) → fs.read_file p (env.acquire (p ++ ".lock") s).0 ≡ fs.read_file p s
    pub unlock-keeps :
        (p : String) (s : S) → fs.read_file p (env.unlock (p ++ ".lock") s) ≡ fs.read_file p s

  -- encoding/json reads back this store from the text that it makes of it, behind a newline.
  abbrev pub ReadsBack : JobStore → Type 0
  ReadsBack store = (d : String) → env.marshal store ≡ some d → Encodes fs env store (d ++ "\n")

  -- The body runs on a file system with the same content, and its content is left; or it does not run.
  pub locked-cases {ℓ} :
      {A : Type ℓ} (lawful : Lawful fs) (lock : LawfulLock) (path : String) (failed : A)
      (body : S → S × A) (s : S)
      → (((with_exclusive_file_lock fs env path failed body s).1 ≡ failed)
          × (fs.read_file path (with_exclusive_file_lock fs env path failed body s).0
              ≡ fs.read_file path s))
        ⊎ ((t : S) × (fs.read_file path t ≡ fs.read_file path s)
            × ((with_exclusive_file_lock fs env path failed body s).1 ≡ (body t).1)
            × (fs.read_file path (with_exclusive_file_lock fs env path failed body s).0
                ≡ fs.read_file path (body t).0))
  unfolding with_exclusive_file_lock
  locked-cases lawful lock path failed body s =
      let lock_path = path ++ ".lock" in
      let made = fs.mkdir_all (fs.dir lock_path) 448 s in
      let held = env.acquire lock_path made.0 in
      let made_keeps : fs.read_file path made.0 ≡ fs.read_file path s =
        lawful.mkdir_all-keeps (fs.dir lock_path) 448 s path in
      let held_keeps : fs.read_file path held.0 ≡ fs.read_file path s =
        lock.acquire-keeps path made.0 ∙ made_keeps in
      elim (Bool-cases made.1) [
        | inr m ↦ rw m (inl (refl, made_keeps))
        | inl m ↦ rw m (elim (Bool-cases held.1) [
          | inr h ↦ rw h (inl (refl, held_keeps))
          | inl h ↦ rw h (inr (held.0, held_keeps, refl, lock.unlock-keeps path (body held.0).0))
        ])
      ]

  -- What an update without error did to the jobs that it loaded.
  abbrev pub Updated : ℤ → ℕ → Job → JobRepository → Answer → Type 0
  Updated id revision job l a =
      (current : Job) × (lookup id l.jobs ≡ some current)
      × (current.revision ≡ revision)
      × (a.job ≡ some (updated_job id current job))
      × (a.repository ≡ record l { jobs = insert id (updated_job id current job) l.jobs })
