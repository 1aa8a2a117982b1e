-- ===== src/HumanLoop.antt =====
-- human_loop/: the approval queue between the paused graph and the humans.
pub mod Models
pub mod Store
pub mod Queue
