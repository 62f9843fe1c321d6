-- ===== src/Registry.antt =====
-- tools/registry.py: the tools that may be run, and the checks around a run.
pub mod Tools
mod Incident
mod Examples
