-- ===== src/Graph/Nodes.antt =====
-- The node functions of `build_graph`. Each takes the graph's configuration, what it gets from
-- outside and the state, and returns its update with its calls of the memories, or `none` where
-- it raises.
pub mod Effects
pub mod Planning
pub mod Specialist
pub mod Review
pub mod Escalation
pub mod Decision
pub mod Frame
pub mod Redo
