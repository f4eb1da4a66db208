-- ===== src/Codex.antt =====
-- src/modules/codex_integration: how Codex is pointed at TokenSaver, and back.
pub mod Toml
pub mod Config
pub mod Transaction
