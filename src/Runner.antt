-- ===== src/Runner.antt =====
-- The supervisor of the worker threads (job_worker/cli/runner.py): failures, quarantine, the
-- restart of dead threads, discovery, and the health of the fleet. Every dictionary and set of
-- `QueueJobRunner` is keyed by a database or by its thread, so the state is kept per database. The
-- clock is read once in a pass.
pub mod Quarantine
pub mod Stall
pub mod Startup
pub mod Supervise
use odoo_job_worker.Base.{
  ℕ, ◌+◌, Bool, true, false, not, ◌&&◌, ◌||◌, Option, none, some, List, [], ◌∷◌, ◌++◌, ◌==◌, leb,
  if◌then◌else◌, keep_if, length, is_some,
}
use odoo_job_worker.Gate.State.{Gate, is_overdue}

-- A worker thread: whether it runs, and whether it is in `_deaths_counted`.
pub record Thread : Type 0 where
  pub alive : Bool
  pub counted : Bool

pub record Settings : Type 0 where
  pub maximum_consecutive_failures : ℕ
  pub failure_window_seconds : ℕ
  pub database_unhealthy_after_seconds : ℕ

-- `_worker_threads`, `_failure_timestamps`, `_quarantined_databases`, `_upgrade_gates`,
-- `_registry_load_retry_since`, and the streak of the worker of `_worker_instances`.
pub record Database : Type 0 where
  pub thread : Option Thread
  pub failures : List ℕ
  pub quarantined : Bool
  pub gate : Option Gate
  pub retrying_since : Option ℕ
  pub recovering_since : Option ℕ

-- `[ts for ts in timestamps if ts >= cutoff]`
abbrev pub recent_failures : Settings → ℕ → List ℕ → List ℕ
recent_failures s now failures = keep_if (λ t. leb now (t + s.failure_window_seconds)) failures

-- `_recent_failure_count`: the pruned history, and how many remain.
unfoldable pub recent_failure_count : Settings → ℕ → Database → Database × ℕ
recent_failure_count s now d = (
  record d { failures = recent_failures s now d.failures },
  length (recent_failures s now d.failures),
)

unfoldable pub record_failure : Settings → ℕ → Database → Database
unfolding recent_failure_count
record_failure s now d =
    let (pruned, count) =
      recent_failure_count s now (record d { failures = d.failures ++ now ∷ [] }) in
    if leb s.maximum_consecutive_failures count
    then record pruned { quarantined = true }
    else pruned

-- `_expire_quarantines` for one database.
unfoldable pub expire_quarantine : Settings → ℕ → Database → Database
unfolding recent_failure_count
expire_quarantine s now d =
    if d.quarantined
    then (let (pruned, count) = recent_failure_count s now d in
        if leb s.maximum_consecutive_failures count
        then pruned
        else record pruned { quarantined = false })
    else d

abbrev pub new_thread : Thread
new_thread = record { alive = true; counted = false }

-- `_start_worker_thread`
unfoldable pub start_worker_thread : Database → Database
start_worker_thread d = record d { thread = some new_thread }

-- What `_check_thread_health` does about a dead thread of a database that is not quarantined.
abbrev bury : Settings → ℕ → Thread → Database → Database
bury s now t d =
    if t.counted
    then d
    else record_failure s now (record d { thread = some (record t { counted = true }) })

-- `_forget_thread`, with the entry of `_worker_instances`, and a new thread.
abbrev replace_thread : Database → Database
replace_thread d = start_worker_thread (record d { thread = none; recovering_since = none })

abbrev restart_unless : Database → Database
restart_unless d = if d.quarantined then d else replace_thread d

abbrev check_thread : Settings → ℕ → Option Thread → Database → Database
check_thread s now none d = d
check_thread s now (some t) d =
    if t.alive || d.quarantined then d else restart_unless (bury s now t d)

-- `_check_thread_health` for one database.
unfoldable pub check_thread_health : Settings → ℕ → Database → Database
unfolding record_failure start_worker_thread
check_thread_health s now d = check_thread s now d.thread d

-- `_stop_worker_thread`
unfoldable pub stop_worker_thread : Database → Database
stop_worker_thread d = record d {
  thread = none;
  recovering_since = none;
  failures = [];
  quarantined = false;
}

-- What a discovery pass finds of a database: it is gone, lacks the module, or cannot be asked; or
-- it is there, and its advisory lock was obtained or not.
pub data Found : Type 0 where
  unavailable : Found
  available : (lock : Bool) → Found

abbrev adopt : Found → Database → Database
adopt unavailable d = if is_some d.thread then stop_worker_thread d else d
adopt (available lock) d = if lock && not (is_some d.thread) then start_worker_thread d else d

-- `discover_databases` for one database.
unfoldable pub discover : Settings → ℕ → Found → Database → Database
unfolding expire_quarantine start_worker_thread stop_worker_thread
discover s now found d = adopt found (expire_quarantine s now d)

-- How a thread ends, in `_worker_thread_target`: it returns, or an exception reaches its end.
abbrev ended : Bool → Option Thread → Option Thread
ended counted none = none
ended counted (some t) = some (record { alive = false; counted = t.counted || counted })

unfoldable pub thread_returns : Database → Database
thread_returns d = record d {
  thread = ended false d.thread;
  gate = none;
  retrying_since = none;
  recovering_since = none;
}

unfoldable pub thread_crashes : Settings → ℕ → Database → Database
unfolding record_failure
thread_crashes s now d = record_failure s now (record d {
  thread = ended true d.thread;
  gate = none;
  retrying_since = none;
  recovering_since = none;
})

abbrev pub gate_overdue : ℕ → Option Gate → Bool
gate_overdue now none = false
gate_overdue now (some g) = is_overdue now g

abbrev pub since_long : ℕ → ℕ → Option ℕ → Bool
since_long now limit none = false
since_long now limit (some t) = leb (t + limit) now

-- Whether `_fleet_is_degraded` returns true for this database.
unfoldable pub is_degraded : Settings → ℕ → Database → Bool
is_degraded s now d =
    d.quarantined
    || (gate_overdue now d.gate
        || (leb s.maximum_consecutive_failures (length (recent_failures s now d.failures))
            || (not (s.database_unhealthy_after_seconds == 0)
                && (since_long now s.database_unhealthy_after_seconds d.retrying_since
                    || since_long now s.database_unhealthy_after_seconds d.recovering_since))))

unfoldable pub fleet_is_degraded : Settings → ℕ → List Database → Bool
unfolding is_degraded
fleet_is_degraded s now [] = false
fleet_is_degraded s now (d ∷ databases) = is_degraded s now d || fleet_is_degraded s now databases
