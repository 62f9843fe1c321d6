-- ===== src/ServiceStatus.antt =====
-- The service status tool of tools/service_status.py and its circuit breakers (app/queue_db.py).
pub mod Breaker
pub mod Cache
pub mod Check
pub mod BreakerLaws
pub mod Answers
pub mod Up
pub mod Examples
