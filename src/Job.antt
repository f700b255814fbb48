-- ===== src/Job.antt =====
-- job_worker/models/queue_job.py: the row of the table `queue_job`, and what SQL and the ORM
-- read of it. A point in time is a number of seconds; a uuid is a number.
mod Row
mod Table
mod Ids
pub use Row.*
pub use Table.*
pub use Ids.*
