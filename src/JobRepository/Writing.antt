-- ===== src/JobRepository/Writing.antt =====
-- The changes of job_repository.go: create, update and delete.
use sync_bridge.Base.{String, int_keyed, nat_keyed}
use sync_bridge.Job.{Job}
use sync_bridge.JobRepository.{JobRepository}
