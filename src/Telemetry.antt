-- ===== src/Telemetry.antt =====
-- src/modules/telemetry/mod.rs: what the optimiser measures, and its store.
pub mod Model
pub mod Summary
pub mod Store
