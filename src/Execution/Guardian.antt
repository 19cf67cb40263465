-- ===== src/Execution/Guardian.antt =====
-- src/cats_py/execution/guardian.py: the watch over protective orders. Its heartbeats are in a child.
pub mod Heartbeat
pub mod Watch
pub mod Alerts
pub mod Streaks
