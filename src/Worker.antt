-- ===== src/Worker.antt =====
-- job_worker/cli/worker.py: how a worker takes jobs, runs them and records how they ended.
pub mod Acquire
pub mod Ownership
pub mod Outcome
pub mod View
pub mod Loop
