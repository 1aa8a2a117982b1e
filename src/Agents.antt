-- ===== src/Agents.antt =====
-- agents/: the agents that the graph calls.
pub mod Base
pub mod Session
pub mod ToolLoop
pub mod Specialists
pub mod Supervisor
pub mod Reviewer
pub mod Clarifier
