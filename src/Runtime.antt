-- ===== src/Runtime.antt =====
-- src/modules/runtime: what the program keeps of the operator's choices.
pub mod Preferences
pub mod Status
