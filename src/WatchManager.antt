-- ===== src/WatchManager.antt =====
-- cmd/syncbridge/watch_manager.go: the file watchers of the jobs.
pub mod Spec
pub mod State
pub mod Reconcile
pub mod Lost
pub mod Tests
