-- ===== src/RunService.antt =====
-- cmd/syncbridge/run_service.go: the service that reserves, runs, stops and remembers runs.
pub mod State
pub mod Events
pub mod Retention
pub mod Finish
pub mod Start
pub mod Worker
pub mod Control
pub mod Consistency
pub mod Exclusion
pub mod Outcomes
mod Tests
