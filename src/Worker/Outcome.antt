-- ===== src/Worker/Outcome.antt =====
-- How an attempt that ended is recorded: `handle_exception`, the finalization of `execute_job`, and
-- the choice between them.
pub mod Backoff
pub mod Budget
pub mod Settled
pub mod Branches
use odoo_job_worker.Base.{
  ℕ, suc, ◌+◌, ◌-◌, ◌*◌, ◌^◌, min, Bool, true, false, not, ◌&&◌, ◌||◌, Option, none, some, List, [],
  ◌∷◌, String, ◌==◌, leb, ltb, if◌then◌else◌, or_zero, or_else, is_some, member,
}
use odoo_job_worker.Job.{
  Job, State, pending, done, failed, Seconds, seconds_between, at_least_zero, traceback, browse,
  write,
}
use odoo_job_worker.Graph.Children.{
  cascade_children_on_parent_failure, cascade_children_on_parent_success,
}
use odoo_job_worker.Graph.Barrier.{release_dependents, fail_dependents}
use odoo_job_worker.Worker.Ownership.{clear_worker_ownership}

-- The settings of a worker that these operations read.
pub record Config : Type 0 where
  pub worker_uuid : ℕ
  pub max_backoff_seconds : ℕ
  pub registry_check_interval : ℕ
  pub transient_registry_max_age_seconds : ℕ

-- What ended the method (job_worker/exception.py).
pub data Raised : Type 0 where
  transient_registry : (seconds : Option ℕ) → Raised
  retryable : (seconds : Option ℕ) (ignore_retry : Bool) → Raised
  other : Raised

-- `min(10 * (2 ** max(attempts - 1, 0)), max_backoff_seconds)`
unfoldable pub backoff : ℕ → ℕ → ℕ
backoff ceiling attempts = min (10 * 2 ^ (attempts - 1)) ceiling

-- Back to the queue, to run again after a delay.
unfoldable pub retry_after : ℕ → ℕ → Job → Job
retry_after now delay r = record r {
  state = pending;
  scheduled_at = some (now + delay);
  worker_id = none;
  heartbeat = none;
  write_date = now;
}

abbrev pub lasted : ℕ → Option ℕ → Option Seconds → Option Seconds
lasted now none old = old
lasted now (some t) old = some (at_least_zero (seconds_between now t))

unfoldable pub fail_for_good : ℕ → Job → Job
fail_for_good now r = record r {
  state = failed;
  completed_at = some now;
  duration = lasted now r.started_at r.duration;
  scheduled_at = none;
  worker_id = none;
  heartbeat = none;
  write_date = now;
}

-- `exc.seconds or self.registry_check_interval`
abbrev pub or_interval : Option ℕ → ℕ → ℕ
or_interval none interval = interval
or_interval (some s) interval = if s == 0 then interval else s

-- `(now - create_date) < transient_registry_max_age_seconds`
abbrev pub is_young : ℕ → ℕ → Job → Bool
is_young now ceiling r = ltb now (r.create_date + ceiling)

abbrev pub counted : Bool → Option ℕ → Option ℕ
counted true attempts = attempts
counted false attempts = some (or_zero attempts + 1)

-- `retry_infinitely or retry_remaining`
abbrev pub has_retries : ℕ → ℕ → Bool
has_retries max_retries attempts = max_retries == 0 || leb attempts max_retries

-- The row after `handle_exception`. `text` is the traceback.
unfoldable pub after_exception : Config → ℕ → String → Raised → Job → Job
unfolding retry_after fail_for_good
after_exception c now text (transient_registry seconds) r =
    let told = record r { exc_info = some (traceback text ∷ []) } in
    if is_young now c.transient_registry_max_age_seconds r
    then retry_after now (or_interval seconds c.registry_check_interval) told
    else fail_for_good now told
after_exception c now text (retryable seconds ignore_retry) r =
    let told = record r {
      exc_info = some (traceback text ∷ []);
      attempts = counted ignore_retry r.attempts;
    } in
    retry_after now (or_else seconds (backoff c.max_backoff_seconds (or_zero told.attempts))) told
after_exception c now text other r =
    let attempts = or_zero r.attempts + 1 in
    let told = record r { exc_info = some (traceback text ∷ []); attempts = some attempts } in
    if has_retries r.max_retries attempts
    then retry_after now (backoff c.max_backoff_seconds attempts) told
    else fail_for_good now told

-- Whether `handle_exception` takes a branch that fails the job.
abbrev pub ends_job : Config → ℕ → Raised → Job → Bool
ends_job c now (transient_registry seconds) r =
    not (is_young now c.transient_registry_max_age_seconds r)
ends_job c now (retryable seconds ignore_retry) r = false
ends_job c now other r = not (has_retries r.max_retries (or_zero r.attempts + 1))

unfoldable pub cascade_failure_to_dependents : ℕ → ℕ → List Job → List Job
cascade_failure_to_dependents now job rows =
    fail_dependents now (job ∷ []) (cascade_children_on_parent_failure now job rows)

unfoldable pub handle_exception : Config → ℕ → String → Raised → Job → List Job → List Job
handle_exception c now text exc job rows =
    let written = write job.id (after_exception c now text exc) rows in
    if ends_job c now exc job then cascade_failure_to_dependents now job.id written else written

-- The row after `finalize_job`.
unfoldable pub finalize_row : ℕ → Option String → Job → Job
finalize_row now result r = record r {
  state = done;
  completed_at = some now;
  duration = lasted now r.started_at r.duration;
  result = elim result [ none ↦ r.result | some text ↦ some text ];
  worker_id = none;
  heartbeat = none;
  write_date = now;
}

unfoldable pub finalize_job : ℕ → Option String → ℕ → List Job → List Job
finalize_job now result job rows =
    release_dependents now (job ∷ [])
      (cascade_children_on_parent_success now job (write job (finalize_row now result) rows))

-- What the method did, if the job came as far as calling it; `result` is the serialized result.
pub data Ran : Type 0 where
  returned : (result : Option String) → Ran
  raised : Raised → Ran

abbrev pub all_exist : (ℕ → Bool) → List ℕ → Bool
all_exist exists [] = true
all_exist exists (k ∷ ks) = exists k && all_exist exists ks

-- From the payload to the call: a model that the registry lacks, and records that are gone, raise.
-- `exists` and `call` are the answers of the ORM and of the method.
unfoldable pub run_payload : Config → (String → Bool) → (ℕ → Bool) → Ran → Job → Ran
run_payload c model_exists exists call job =
    if not (model_exists job.payload.model)
    then raised (transient_registry (some c.registry_check_interval))
    else if all_exist exists job.payload.ids
    then call
    else raised other

-- When the timeout event is set, as `execute_job` reads it: at the first check or on the exception,
-- and after the side effects are committed.
pub record TimedOut : Type 0 where
  pub by_return : Bool
  pub by_commit : Bool

-- `execute_job` from the end of the method on.
unfoldable pub settle_attempt : Config → ℕ → String → TimedOut → Ran → Job → List Job → List Job
settle_attempt c now text late (returned result) job rows =
    if late.by_return
    then clear_worker_ownership c.worker_uuid job.id rows
    else if late.by_commit
    then rows
    else finalize_job now result job.id rows
settle_attempt c now text late (raised exc) job rows =
    if late.by_return
    then clear_worker_ownership c.worker_uuid job.id rows
    else handle_exception c now text exc job rows

unfoldable pub execute_job :
    Config → ℕ → String → TimedOut → (String → Bool) → (ℕ → Bool) → Ran → Job → List Job → List Job
unfolding settle_attempt run_payload
execute_job c now text late model_exists exists call job rows =
    settle_attempt c now text late (run_payload c model_exists exists call job) job rows
