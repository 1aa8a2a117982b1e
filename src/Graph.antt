-- ===== src/Graph.antt =====
-- The package graph: the state of a run, the nodes, the routing between them, and the runs.
pub mod State
pub mod World
pub mod Nodes
pub mod Routing
pub mod Run
