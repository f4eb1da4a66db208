-- ===== src/Application.antt =====
-- src/application: the use cases that join the modules.
pub mod Measurement
pub mod Connection
pub mod Desktop
pub mod Control
