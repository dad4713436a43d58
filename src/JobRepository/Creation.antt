-- ===== src/JobRepository/Creation.antt =====
-- `Create` of job_repository.go: a new ID, and the job in the file.
use sync_bridge.Base.{some, int64_suc, insert, int_keyed, ◌≡◌}
use sync_bridge.Job.{Job}
use sync_bridge.JobRepository.{JobRepository}
use sync_bridge.AtomicFile.{FileSystem}
use sync_bridge.JobRepository.Operations.{Environment, Answer, created_job}

module _ {S : Type 0} (fs : FileSystem S) (env : Environment S) where
  -- What a creation without error did to the jobs that it loaded.
  abbrev pub Created : Job → JobRepository → Answer → Type 0
  Created job l a =
      (a.job ≡ some (created_job job l))
      × (a.repository
          ≡ record l { next = int64_suc l.next; jobs = insert l.next (created_job job l) l.jobs })
