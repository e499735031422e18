-- ===== src/Telemetry.antt =====
-- src/telemetry: the timeline that a run's readings are kept in.
pub mod Sample
pub mod Timeline
