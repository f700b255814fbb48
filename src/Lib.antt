-- ===== src/Lib.antt =====
-- The job queue of the repository: the rows of `queue_job` and what the server, the workers, the
-- upgrade gate and the supervisor do to them.
--
-- The parts. A server process enqueues jobs, singly or as graphs of delayables
-- (job_worker/delay.py), cancels them and requeues them (job_worker/models/queue_job.py). A worker
-- thread of each database takes jobs under the limits of their channel, runs them and records how
-- they ended (job_worker/cli/worker.py); the end of a job is passed on to the jobs that wait on
-- it, by `parent_id` or as a barrier over a group. The upgrade gate
-- (job_worker/cli/upgrade_gate.py) stops a worker while modules are installed. A supervisor
-- (job_worker/cli/runner.py) starts, restarts and quarantines the worker threads and reads the
-- gates for its health signal. The monitor (job_worker_monitor) samples the rows and raises
-- alerts.
--
-- The files.
-- - Base: shared names, Boolean tests on numbers, lists with their lengths and updates, texts.
-- - Job: the columns of a row (Job/Row, after the fields of `QueueJob` and `STATES` of
--   job_worker/job.py), reading and writing rows (Job/Table), unique ids (Job/Ids).
-- - Graph: the cascades. Graph/Walk is the loop over a queue of jobs that both cascades over
--   `parent_id` share, Graph/Walk/Laws its lemmas; Graph/Children has
--   `_cascade_children_on_parent_failure` and `_cascade_children_on_parent_success`, with their
--   properties in Graph/Children/Failure, Success and Returns; Graph/Barrier has
--   `_release_dependents` and `_fail_dependents`, and Graph/Barrier/Outcome what they make of a
--   barrier; Graph/Cancel has `_cancel_dependents` and `_cascade_children_on_parent_cancelled`,
--   Graph/Cancel/Ends, Fuel and Total the lemmas on their fuel, Graph/Cancel/Settled, Passes,
--   Strands and Spares those on the rows that they leave.
-- - Queue: the table as a whole (Queue/Defs), `enqueue` (Queue/Enqueue and its children), the
--   buttons and the autovacuum (Queue/Buttons and its children, with `button_cancelled` in
--   Queue/Buttons/Cancel, its writes in Selected and its end in Cascade), `run_now`
--   (Queue/RunNow), and the lemmas on tables whose ids and identity keys are unique (Queue/Sound
--   and its children).
-- - Worker: `acquire_job_lock` (Worker/Acquire and its children), the statements guarded by
--   `worker_id` and the heartbeat thread (Worker/Ownership, with Guard, Abandoned and its child
--   Due), `handle_exception`, `finalize_job` and the end of `execute_job` (Worker/Outcome and its
--   children), `_retry_db_operation`, `process_jobs` and the recovery from database errors
--   (Worker/Loop and its children), the gate and the registry as the loop sees them (Worker/View),
--   the cycles and sessions of `run` (Worker/Loop/Cycle, with an induction over them in Trace and
--   two uses of it in Latency and Reload; Worker/Loop/Busy has a worker that is never idle).
--   Worker/Acquire/Overlap has workers that select at the same time, its child Exceeds two that
--   pass a limit.
-- - Gate: `probe` (Gate/Probe) and `UpgradeGate` (Gate/State, with the lag of its cache in
--   Gate/State/Latency).
-- - Runner: `QueueJobRunner` per database, its quarantine (Runner/Quarantine), the stall watchdog
--   (Runner/Stall), the registry load of a starting thread (Runner/Startup, with Pause and Since),
--   and the passes of `run` with the heartbeat file of job_worker/cli/heartbeat.py
--   (Runner/Supervise and its child Health).
-- - Delay: delayables, groups and chains of job_worker/delay.py and `delayable` of
--   job_worker/models/base.py; Delay/Plain, Group, Chain and Handlers follow calls into the rows
--   that they become, Delay/Each, Delay/Steps and Delay/Errors are about graphs of any shape,
--   Delay/Split has `split`.
-- - Serialization: the encoder and the decoder of job_worker/models/job_serialization.py on trees
--   of values (Serialization/Stored: what is storable and what it comes back as;
--   Serialization/RoundTrip: the lemmas). The record `Orm` is what the ORM and the `datetime`
--   package answer, and `IsLawful` what they are relied on for: that a new context keeps the
--   allowed companies where it names none, and that the switch to superuser mode leaves a context
--   without defaults of fields as it is.
-- - Monitor: the metrics of job_worker_monitor/models/queue_job_metric.py (the roll-ups in
--   Monitor/Metrics, with Conserved, the snapshot in Monitor/Metrics/Snapshot, with Counted) and
--   the alert rules of queue_job_alert_rule.py beside it (Monitor/Alerts, with Spaced).
--   Monitor/Health has the fields that it shows of a limit and of a job, Monitor/Groups grouped
--   sums, the record of Monitor/Floats what is computed in floating point.
-- - System: the calls and statements on the table as steps of one relation, without `run_now` and
--   the stamps of the watchdog, and what stays true of the queue (System/Sound, with the lemmas of
--   System/Quiet and System/Takes).
-- - Examples: concrete rows and runs.
--
-- The model. A row is a record, the table the list of its rows in the order of their ids; a
-- statement `UPDATE ... WHERE` maps a function over the rows that meet a test. Times are whole
-- seconds, ids and worker ids numbers, and the clock is read once in an operation. A write through
-- the ORM stamps `write_date`, as SQL statements do themselves. It also runs
-- `_check_identity_key_state_unique`: the buttons model that, and it is left out where the row is
-- active before the write, since unique keys among active rows make it pass. A transaction is one
-- step: `enqueue` takes the rows that others commit between its search and its insertion as an
-- argument, and `acquire_job_lock` the rows that others hold locked; Worker/Acquire/Overlap lets
-- several selections read one table before any of them commits. What the ORM, the job's method,
-- the module table and the connection answer are arguments.
--
-- Bounds. The cascades loop with fuel of one round for the job and one for each waiting row, and
-- the loop of the autovacuum with one round for each row and one more. Each round of a cascade
-- stems from a row that has just left `waiting`, and each round of the autovacuum but the last
-- deletes a row. A call of the cancellation cascade and each round of its loops take one unit of
-- fuel; some fuel is enough for every table, since each round stems from a row that has just left
-- `waiting`. `split` takes one unit for each record. Numbers are unbounded; the count of a barrier
-- stops at 0.
--
-- Not modelled: the two kinds of exception that are retried without regard to the budget in
-- Worker/Outcome/Budget (Worker/Outcome has them), the hook `_job_store_values`, the user and the
-- uuid of a job, the synchronous mode of delayables, the computed fields, exceptions that are not
-- of the database in the main loop of a worker, delayables that are shared between two places of a
-- graph, the text of JSON documents, the dashboard of the monitor, the demo and stress addons,
-- logs and command lines.
pub mod Base
pub mod Job
pub mod Monitor
pub mod Graph
pub mod Queue
pub mod Worker
pub mod Gate
pub mod Runner
pub mod Delay
pub mod Serialization
pub mod System
pub mod Examples
