-- ===== src/Tools.antt =====
-- The package tools.
pub mod Registry
pub mod Files
pub mod Builtin
