-- ===== src/Graph.antt =====
-- What happens to the jobs that wait on another job when that one ends: the cascades over
-- `parent_id` and over `dependency_job_ids` of job_worker/models/queue_job.py.
pub mod Walk
pub mod Children
pub mod Barrier
pub mod Cancel
