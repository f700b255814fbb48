-- ===== src/Worker/Loop.antt =====
-- The main loop of a worker: retries of a database operation, the pool of active jobs, and the
-- recovery from database errors.
pub mod Slots
pub mod Recovery
pub mod Cycle
pub mod Busy
use odoo_job_worker.Base.{
  ℕ, zero, suc, ◌+◌, ◌-◌, ◌*◌, ◌^◌, min, Bool, true, false, not, ◌&&◌, Option, none, some, List, [],
  ◌∷◌, ◌++◌, ◌==◌, leb, if◌then◌else◌, keep_if, length, member,
}
use odoo_job_worker.Gate.State.{Answer}
use odoo_job_worker.Worker.View.{View, note_take, upgrade_gate_is_open}
use odoo_job_worker.Job.{Seconds, pos, seconds_between, at_least_zero}

-- How a database operation ends: it returns, it meets a conflict of `PG_CONCURRENCY_ERRORS_TO_RETRY`,
-- or it raises another error.
pub data Attempted (A : Type 0) : Type 0 where
  returned : A → Attempted A
  conflict : Attempted A
  broken : Attempted A

-- `range(max_retries)` is empty where `max_retries` is 0: nothing is run and `None` is returned.
pub data Retried (A : Type 0) : Type 0 where
  gives : A → Retried A
  nothing : Retried A
  raises_conflict : Retried A
  raises_error : Retried A

-- The loop of `_retry_db_operation`, with `left` attempts to go: `operation` says how each ends.
unfoldable pub retry_from : {A : Type 0} → ℕ → ℕ → (ℕ → Attempted A) → Retried A
retry_from zero attempt operation = nothing
retry_from (suc left) attempt operation =
    let again = retry_from left (attempt + 1) operation in
    elim (operation attempt) [
      | returned a ↦ gives a
      | broken ↦ raises_error
      | conflict ↦ if left == 0 then raises_conflict else again
    ]

unfoldable pub retry_db_operation : {A : Type 0} → ℕ → (ℕ → Attempted A) → Retried A
unfolding retry_from
retry_db_operation max_retries operation = retry_from max_retries 0 operation

-- What `_acquire_job` comes to: a job, no job, a transient error, or another database error.
pub data Acquired : Type 0 where
  got : ℕ → Acquired
  none_left : Acquired
  transient : Acquired
  fatal : Acquired

-- What one round of `process_jobs` finds: whether it is to stop, the jobs that pool threads have
-- taken off `active_job_ids` (`_execute_and_cleanup`) before the slots are counted and between that
-- and the second look, the time and what the connection of the gate would answer, and what the
-- acquisition comes to.
pub record Round : Type 0 where
  pub stopping : Bool
  pub finished : List ℕ
  pub at_time : ℕ
  pub answer : Answer
  pub acquired : Acquired
  pub finished_late : List ℕ

-- Why the loop was left: `unfinished` where the rounds end first.
pub data Left : Type 0 where
  stopped full paused drained raised unfinished : Left

pub record Pool : Type 0 where
  pub active_job_ids : List ℕ
  pub submitted : List ℕ
  pub last_progress : ℕ
  pub view : View

abbrev pub without : List ℕ → List ℕ → List ℕ
without gone ids = keep_if (λ k. not (member k gone)) ids

-- `active_job_ids.add(job_id)` and `_pool.submit(…)`
abbrev pub submit : ℕ → ℕ → Pool → Pool
submit now k p = record {
  active_job_ids = if member k p.active_job_ids then p.active_job_ids else k ∷ p.active_job_ids;
  submitted = p.submitted ++ k ∷ [];
  last_progress = p.last_progress;
  view = note_take now k p.view;
}

abbrev pub finish : List ℕ → Pool → Pool
finish gone p = record p { active_job_ids = without gone p.active_job_ids }

abbrev pub is_idle : Pool → Bool
is_idle p = length p.active_job_ids == 0

unfoldable pub process_jobs : ℕ → List Round → Pool → Pool × Left
process_jobs concurrency [] p = (p, unfinished)
process_jobs concurrency (r ∷ rounds) p =
    let seen = finish r.finished p in
    let (view, is_open) = upgrade_gate_is_open r.at_time r.answer seen.view in
    let asked = record seen { view = view } in
    let later = finish r.finished_late asked in
    let waits = process_jobs concurrency rounds (record later { last_progress = r.at_time }) in
    let on_idle = (if is_idle later then (later, drained) else waits) in
    if r.stopping
    then (p, stopped)
    else if leb concurrency (length seen.active_job_ids)
    then (seen, full)
    else elim is_open [
      | none ↦ (asked, raised)
      | some lets ↦ if not lets then (asked, paused) else elim r.acquired [
        | got k ↦ process_jobs concurrency rounds (submit r.at_time k later)
        | none_left ↦ on_idle
        | transient ↦ on_idle
        | fatal ↦ (later, raised)
      ]
    ]

-- `_database_error_streak`, `_database_error_streak_started_at`, and the settings of the backoff.
pub record Recovering : Type 0 where
  pub streak : ℕ
  pub started_at : Option ℕ
  pub backoff_seconds : ℕ
  pub backoff_cap_seconds : ℕ

abbrev pub or_now : ℕ → Option ℕ → Option ℕ
or_now now none = some now
or_now now (some t) = some t

-- `_back_off_after_database_error`, with the delay that it waits; `recover` writes `last_progress`.
unfoldable pub back_off : ℕ → Recovering → Recovering × ℕ
back_off now r = (
  record r { streak = r.streak + 1; started_at = or_now now r.started_at },
  min (r.backoff_seconds * 2 ^ (r.streak + 1 - 1)) r.backoff_cap_seconds,
)

-- The end of a full cycle of `_listen_and_serve`.
unfoldable pub complete_cycle : Recovering → Recovering
complete_cycle r = record r { streak = 0; started_at = none }

abbrev pub seconds_since : ℕ → Option ℕ → Seconds
seconds_since now none = pos 0
seconds_since now (some t) = at_least_zero (seconds_between now t)

unfoldable pub seconds_in_database_error_recovery : ℕ → Recovering → Seconds
seconds_in_database_error_recovery now r = seconds_since now r.started_at
