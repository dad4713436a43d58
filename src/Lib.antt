-- ===== src/Lib.antt =====
-- SyncBridge: the core of the controller under cmd/syncbridge, a program that runs backup and sync
-- jobs on its host. A trigger (a person, the scheduler, a file watcher) asks the run service for a run
-- of a job that the repository stores; the service reserves the run, lets a worker compile its plan,
-- install its wrapper and execute it, keeps its log, and records its end in the history file. The plan
-- compiler checks a job against the host, the host executor controls the process group that runs it.
--
-- Files, and the source that each models (all under cmd/syncbridge):
--   Base, Base/*            what the parts share: tests, numbers, lists, maps as association lists
--   Job                     model.go: the stored job and its enumerations
--   AtomicFile, AtomicFile/* atomic_file.go: atomicWriteFileWithFS over any file system;
--                           Effect has the laws asked of one, Memory a file system that has them
--   JobRepository, JobRepository/* job_repository.go: load, migration, Create, Update, Delete
--   History, History/*      history.go: loadHistoryAt, appendHistoryAtomicAt
--   Text                    main.go: splitCSV, over the packages strings and path/filepath
--   PlanCompiler/*          execution_plan.go: Compile and all that it calls; capabilities.go: the report.
--                           Types has the data, Patterns the regular expressions, Capabilities the report,
--                           Checks, Argv, Compile, Environment, Plan and Inspector the functions; Bounds, Syncing,
--                           Setting, Toolchain, Admission and Coherence are about them
--   HostExecutor/*          host_executor.go: Control has the control loop, Stop and the status of reap,
--                           Splitter the line splitter; Sound, Ending and Stopped are about the loop,
--                           FirstLine, Taken and Chunks about the lines
--   Scheduler, Scheduler/*  scheduler.go: Reconcile, fire, Close
--   PersistentScheduler, PersistentScheduler/* persistent_scheduler.go: Reconcile; Orphans is about it
--   WatchManager/*          watch_manager.go: Spec has the specification of a watch, State the handles and
--                           what their goroutines do, Reconcile the functions Reconcile and Close; Lost is
--                           about them
--   Authentication, Authentication/* auth.go: registration, login, sessions, requireAuth
--   RunEffects              run_effects.go: backup rotation and notification after a run
--   LogBuffer, LogBuffer/*  log_buffer.go: AppendAt, TrimBefore, Bytes
--   RunService, RunService/* run_service.go: Start, execute, Stop, finish, retention, subscriptions;
--                           Consistency/Steps has the step relation that interleaves them
-- Files named Tests hold concrete runs and the theorems at concrete inputs.
--
-- How the code is modelled. A method that holds a mutex throughout is one function on the state,
-- and a method with several critical sections is one function for each. A Go map is an association
-- list, walked in its order; a slice is a list and a value, so that cloneJob is the identity; int
-- is an integer, and int and time.Duration wrap at 64 bits in the sums and products that can leave
-- them (the next ID, the durations of a policy, the wait after failed logins); counters are
-- natural numbers, uint64 wraps at 2 ^ 64. Each critical section reads the clock once; a time is a
-- number of nanoseconds, the zero time 0. A run ID is the number of its 16 random bytes. Loops are
-- structural recursions; the scan of AppendAt runs on fuel, a round for each byte of its data, and
-- so do the calls of the line splitter, one more than the bytes of the buffer. Each takes a byte
-- at least, and the theorems are about the whole result. The buffer of the line scanner holds
-- 65,537 bytes, and a read is never longer than its room. A select loop is a step function on its
-- cases, with a relation for its rounds. A function that returns an error is a Result, with a
-- constructor for each message. Regular expressions are functions on code points, a text being its
-- code points. What other goroutines do between two critical sections of one call is a function
-- that the theorem names.
--
-- Parameters. The file system, encoding/json, flock, strconv, strings.Fields, strings.TrimSpace and Split,
-- path/filepath, the cron engine, fsnotify, bcrypt, the host inspector, the answers of the host to signals
-- and probes, and, to the run service, the answers of the plan compiler, the wrapper installer and the
-- executor are arguments. What a theorem relies on of them is among its hypotheses.
--
-- Not modelled: HTTP routing and JSON answers, contexts and goroutine joins, walks over directories, the
-- running of host commands, the start of a process and its log queue, wrapper files, host
-- inventory, remotes, notifications and the web user interface.
mod Base
pub mod LogBuffer
pub mod Job
pub mod AtomicFile
pub mod JobRepository
pub mod History
pub mod Scheduler
pub mod Authentication
pub mod HostExecutor
pub mod PersistentScheduler
pub mod PlanCompiler
pub mod RunEffects
pub mod Text
pub mod WatchManager
pub mod RunService
