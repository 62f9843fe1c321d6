-- ===== src/Report.antt =====
-- app/report_service.py: the final report, written from a template or by the language model.
pub mod Template
pub mod Claims
pub mod Generate
mod Answers
mod Sources
mod Examples
