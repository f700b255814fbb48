-- ===== src/Gate.antt =====
-- job_worker/cli/upgrade_gate.py: whether a worker may load its registry and take jobs. A time is a
-- number of ticks of the monotonic clock; of the log lines only the state that paces them is kept.
pub mod Probe
pub mod State
