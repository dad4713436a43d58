-- ===== src/HostExecutor.antt =====
-- cmd/syncbridge/host_executor.go: the control of a process group that runs, and its log lines.
pub mod Control
pub mod Sound
pub mod Ending
pub mod Stopped
pub mod Splitter
pub mod FirstLine
pub mod Taken
pub mod Chunks
mod Tests
