-- ===== src/TimeWindow.antt =====
-- The time window parser of app/time_window.py.
pub mod Dates
pub mod Parse
pub mod Bounds
pub mod Raises
pub mod Examples
