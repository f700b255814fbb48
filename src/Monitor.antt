-- ===== src/Monitor.antt =====
-- job_worker_monitor/models: the metric snapshots and the alert rules.
pub mod Floats
pub mod Groups
pub mod Metrics
pub mod Alerts
pub mod Health
