-- ===== src/Aging.antt =====
-- src/modules/aging/mod.rs: the tool-result aging domain.
pub mod Model
pub mod Receipt
pub mod Engine
