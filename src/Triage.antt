-- ===== src/Triage.antt =====
-- app/triage_service.py: the triage of a message, by rules or by the language model.
pub mod Extract
pub mod Payload
pub mod Infer
pub mod Time
pub mod Rules
pub mod Model
pub mod Finish
mod Routing
mod Attempts
mod Reported
mod Questions
mod Prose
mod Examples
