-- ===== src/Queue.antt =====
-- The table `queue_job` as a whole, with what creates rows in it and what the user does to them:
-- `enqueue`, the buttons and the autovacuum of job_worker/models/queue_job.py.
mod Defs
pub mod Enqueue
pub mod Sound
pub mod Buttons
pub mod RunNow
unfoldable pub use Defs.*
