-- ===== src/Tracing.antt =====
-- tracing/: what a run cost, kept in a database.
pub mod Pricing
pub mod Store
pub mod Dashboards
pub mod Recorder
pub mod Replay
