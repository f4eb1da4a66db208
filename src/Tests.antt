-- ===== src/Tests.antt =====
-- Runs of the modelled code on concrete input, one for each property.
mod Document
mod Aging
mod Telemetry
mod Transport
mod Entries
mod Fixtures
mod Codex
mod Desktop
mod Handler
mod Runtime
mod Application
mod Admission
