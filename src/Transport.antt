-- ===== src/Transport.antt =====
-- src/modules/transport/mod.rs: the loopback transport between Codex and its native upstream.
pub mod Capability
pub mod Json
pub mod Compression
pub mod Request
pub mod Usage
pub mod Admission
pub mod Headers
pub mod Handler
