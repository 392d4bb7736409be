-- ===== src/Manager.antt =====
-- src/manager.rs: the task that owns the backend, and its state machine.
pub mod Backend
pub mod State
pub mod Display
pub mod Connection
pub mod Timers
pub mod Reply
pub mod Dump
pub mod Commands
pub mod Try
pub mod Mutation
pub mod Nvm
pub mod Dispatch
pub mod Loop
pub mod Invariant
pub mod Keeps
pub mod Discovery
pub mod Pauses
pub mod Frame
pub mod Answers
pub mod DumpKeeps
pub mod CommandKeeps
pub mod Runs
pub mod Resumes
pub mod ResumeTimers
pub mod ResumeHost
pub mod ResumeCommands
pub mod ResumeDumps
pub mod ResumeRuns
pub mod Outcomes
pub mod Exclusive
pub mod Backoff
pub mod Rollback
pub mod Reports
pub mod Refusals
pub mod Spacing
pub mod Leases
pub mod Sequence
pub mod SequenceParts
pub mod SequenceCommands
pub mod SequenceRuns
