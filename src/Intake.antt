-- ===== src/Intake.antt =====
-- Intakes and tenants (app/queue_db.py).
pub mod Tenants
pub mod Intakes
pub mod Laws
pub mod Examples
pub mod Handoffs
