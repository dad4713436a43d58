-- ===== src/PlanCompiler.antt =====
-- cmd/syncbridge/execution_plan.go: a job and a request become the plan that the executor runs.
pub mod Types
pub mod Patterns
pub mod Capabilities
pub mod Checks
pub mod Argv
pub mod Compile
pub mod Environment
pub mod Plan
pub mod Inspector
pub mod Coherence
pub mod Bounds
pub mod Syncing
pub mod Setting
pub mod Toolchain
pub mod Admission
mod Tests
