-- ===== src/Examples.antt =====
-- The theorems applied to small runs of the program.
pub mod Runs
pub mod States
pub mod Redo
pub mod Stalls
pub mod Stuck
pub mod Tools
pub mod Queue
pub mod Agents
pub mod Tracing
pub mod LongTerm
pub mod Working
pub mod Runner
pub mod Terminal
pub mod Compiled
pub mod Api
pub mod Supervisor
pub mod Builtin
pub mod Dashboards
