-- ===== src/Server.antt =====
-- Keys, roles and the guarded operations of the HTTP server (app/server.py).
pub mod Access
pub mod AccessLaws
pub mod AccessExamples
