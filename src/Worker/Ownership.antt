-- ===== src/Worker/Ownership.antt =====
-- The statements of a worker that are guarded by its own `worker_id`: the heartbeats, the record of
-- a timeout, and the release of a claim; and the loop of the heartbeat thread.
pub mod Guard
pub mod Abandoned
use odoo_job_worker.Base.{
  ℕ, ◌+◌, ◌-◌, ◌*◌, ◌^◌, min, Bool, true, false, not, ◌&&◌, ◌||◌, Option, none, some, List, [], ◌∷◌,
  ◌==◌, ltb, leb, if◌then◌else◌, is_key, member, update_if, or_else,
}
use odoo_job_worker.Job.{Job, is_started, timeout_exceeded}

-- `SET heartbeat = NOW()`
unfoldable pub beat : ℕ → Job → Job
beat now r = record r { heartbeat = some now }

-- `WHERE id = ANY(snapshot) AND worker_id = worker_uuid`
abbrev pub beats_with : ℕ → List ℕ → Job → Bool
beats_with worker snapshot r = member r.id snapshot && is_key r.worker_id worker

unfoldable pub update_heartbeats : ℕ → ℕ → List ℕ → List Job → List Job
update_heartbeats now worker [] rows = rows
update_heartbeats now worker (job ∷ snapshot) rows =
    update_if (beats_with worker (job ∷ snapshot)) (beat now) rows

-- `WHERE id = job AND state = 'started' AND worker_id = worker_uuid`
abbrev pub runs_under : ℕ → ℕ → Job → Bool
runs_under worker job r = r.id == job && (is_started r.state && is_key r.worker_id worker)

unfoldable pub heartbeat_job : ℕ → ℕ → ℕ → List Job → List Job
heartbeat_job now worker job rows = update_if (runs_under worker job) (beat now) rows

-- `max_retries = 0 OR COALESCE(attempts, 1) < max_retries`
abbrev pub is_paced : ℕ → Option ℕ → Bool
is_paced max_retries attempts = max_retries == 0 || ltb (or_else attempts 1) max_retries

-- `LEAST(10 * POWER(2, GREATEST(COALESCE(attempts, 1) - 1, 0)), max_backoff_seconds)`
abbrev pub pace : ℕ → Option ℕ → ℕ
pace ceiling attempts = min (10 * 2 ^ (or_else attempts 1 - 1)) ceiling

unfoldable pub stamp_timeout : ℕ → ℕ → ℕ → Job → Job
stamp_timeout now ceiling timeout r = record r {
  exc_info = some (timeout_exceeded timeout ∷ []);
  scheduled_at =
      if is_paced r.max_retries r.attempts
      then some (now + pace ceiling r.attempts)
      else r.scheduled_at;
  write_date = now;
}

unfoldable pub handle_timeout : ℕ → ℕ → ℕ → ℕ → ℕ → List Job → List Job
handle_timeout now worker ceiling job timeout rows =
    update_if (runs_under worker job) (stamp_timeout now ceiling timeout) rows

unfoldable pub disown : Job → Job
disown r = record r { worker_id = none; heartbeat = none }

unfoldable pub clear_worker_ownership : ℕ → ℕ → List Job → List Job
clear_worker_ownership worker job rows =
    update_if (λ r. r.id == job && is_key r.worker_id worker) disown rows

-- A round of `_heartbeat_loop`: whether the attempt ends during the wait, the time, and whether the
-- beat and the record of a timeout succeed; their exceptions are caught. The event that tells the
-- execution thread of a timeout is left out.
pub record Tick : Type 0 where
  pub stopped : Bool
  pub at_time : ℕ
  pub beats : Bool
  pub stamps : Bool

-- The attempt has ended, or overran its timeout, or goes on where the rounds end.
pub data LoopEnd : Type 0 where
  ended : LoopEnd
  timed_out : (at_time : ℕ) → LoopEnd
  beating : LoopEnd

-- The attempt that a heartbeat thread looks after: `worker_uuid`, `max_backoff_seconds`, `job_id`,
-- `timeout` and `started_at`.
pub record Attempt : Type 0 where
  pub worker : ℕ
  pub ceiling : ℕ
  pub job : ℕ
  pub timeout : ℕ
  pub started_at : ℕ

abbrev pub overruns : Attempt → ℕ → Bool
overruns a now = not (a.timeout == 0) && leb (a.started_at + a.timeout) now

abbrev pub beat_if : Bool → ℕ → Attempt → List Job → List Job
beat_if succeeds now a rows = if succeeds then heartbeat_job now a.worker a.job rows else rows

abbrev pub stamp_if : Bool → ℕ → Attempt → List Job → List Job
stamp_if succeeds now a rows =
    if succeeds then handle_timeout now a.worker a.ceiling a.job a.timeout rows else rows

unfoldable pub heartbeat_loop : Attempt → List Tick → List Job → List Job × LoopEnd
unfolding heartbeat_job handle_timeout
heartbeat_loop a [] rows = (rows, beating)
heartbeat_loop a (t ∷ ticks) rows =
    let beaten = beat_if t.beats t.at_time a rows in
    let rest = heartbeat_loop a ticks beaten in
    if t.stopped
    then (rows, ended)
    else if overruns a t.at_time
    then (stamp_if t.stamps t.at_time a beaten, timed_out t.at_time)
    else rest
