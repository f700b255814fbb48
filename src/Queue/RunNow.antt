-- ===== src/Queue/RunNow.antt =====
-- `run_now`: jobs that are run at once, in the transaction of the caller.
use odoo_job_worker.Base.{
  ℕ, ◌+◌, ◌≡◌, Bool, true, false, Option, none, some, String, List, [], ◌∷◌, or_zero, or_else,
}
use odoo_job_worker.Job.{Job, pending, done, failed, seconds_between, traceback, write}
use odoo_job_worker.Graph.Children.{
  cascade_children_on_parent_failure, cascade_children_on_parent_success,
}
use odoo_job_worker.Graph.Barrier.{release_dependents, fail_dependents}
use odoo_job_worker.Worker.Outcome.{backoff, counted}
use odoo_job_worker.Graph.Walk.Laws.{NoWaitingChild}
use odoo_job_worker.Graph.Children.Failure.{cascade_failure-NoWaitingChild}
use odoo_job_worker.Graph.Children.Success.{cascade_success-NoWaitingChild}
use odoo_job_worker.Worker.Outcome.Settled.{
  NoBarrier, fail_dependents-NoBarrier, fail_dependents-NoWaitingChild,
  release_dependents-NoWaitingChild,
}

-- What the call comes to, from the decoding of the payload on: it returns, with its result as a text
-- if that can be serialized; it asks for a retry; or it raises anything else.
pub data Attempt : Type 0 where
  returned : (result : Option String) → Attempt
  retries : (seconds : Option ℕ) (ignore_retry : Bool) → Attempt
  breaks : Attempt

-- The call returns, or passes an exception on with the rows as they are then.
pub data Running : Type 0 where
  ran_to : List Job → Running
  raised_at : List Job → Running

abbrev pub rows_of : Running → List Job
rows_of (ran_to rows) = rows
rows_of (raised_at rows) = rows

unfoldable pub complete : ℕ → ℕ → Option String → Job → Job
complete begin end_ result r = record r {
  started_at = some begin;
  result = elim result [ none ↦ r.result | some text ↦ some text ];
  state = done;
  completed_at = some end_;
  duration = some (seconds_between end_ begin);
  write_date = end_;
}

unfoldable pub postpone : ℕ → ℕ → String → Option ℕ → Bool → Job → Job
postpone begin end_ text seconds ignore_retry r =
    let attempts = counted ignore_retry r.attempts in
    record r {
      started_at = some begin;
      exc_info = some (traceback text ∷ []);
      attempts = attempts;
      scheduled_at = some (end_ + or_else seconds (backoff 3600 (or_zero attempts)));
      state = pending;
      write_date = end_;
    }

unfoldable pub break_down : ℕ → ℕ → String → Job → Job
break_down begin end_ text r = record r {
  started_at = some begin;
  state = failed;
  exc_info = some (traceback text ∷ []);
  completed_at = some end_;
  duration = some (seconds_between end_ begin);
  write_date = end_;
}

-- One round of the loop.
unfoldable pub run_one : ℕ → ℕ → String → Attempt → ℕ → List Job → Running
run_one begin end_ text (returned result) job rows = ran_to (
    release_dependents end_ (job ∷ [])
      (cascade_children_on_parent_success end_ job (write job (complete begin end_ result) rows)))
run_one begin end_ text (retries seconds ignore_retry) job rows =
    ran_to (write job (postpone begin end_ text seconds ignore_retry) rows)
run_one begin end_ text breaks job rows = raised_at (
    fail_dependents end_ (job ∷ [])
      (cascade_children_on_parent_failure end_ job (write job (break_down begin end_ text) rows)))

-- The loop, which an exception leaves. `attempt` is what the call of each job comes to.
unfoldable pub run_now : ℕ → ℕ → String → (ℕ → Attempt) → List ℕ → List Job → Running
unfolding run_one
run_now begin end_ text attempt [] rows = ran_to rows
run_now begin end_ text attempt (job ∷ jobs) rows =
    elim (run_one begin end_ text (attempt job) job rows) [
      | ran_to after ↦ run_now begin end_ text attempt jobs after
      | raised_at after ↦ raised_at after
    ]

-- What holds of the rows when the call returns, and what holds of them when it raises.
abbrev pub Either : (List Job → Type 0) → (List Job → Type 0) → Running → Type 0
Either P Q (ran_to rows) = P rows
Either P Q (raised_at rows) = Q rows

abbrev pub is_retry : Attempt → Bool
is_retry (retries seconds ignore_retry) = true
is_retry _ = false

-- When `run_now` is called on one job that does not ask for a retry, no child is left waiting on it
-- when the call returns; when it raises, no child and no barrier is.
pub run_now_strands_none :
    (begin end_ : ℕ) (text : String) (attempt : ℕ → Attempt) (job : ℕ) (rows : List Job)
    → is_retry (attempt job) ≡ false
    → Either
        (NoWaitingChild job)
        (λ after. NoWaitingChild job after × NoBarrier job after)
        (run_now begin end_ text attempt (job ∷ []) rows)
unfolding run_now release_dependents fail_dependents
run_now_strands_none begin end_ text attempt job rows h = go (attempt job) h
  where
    go :
        (a : Attempt)
        → is_retry a ≡ false
        → Either
            (NoWaitingChild job)
            (λ after. NoWaitingChild job after × NoBarrier job after)
            (elim (run_one begin end_ text a job rows) [
              | ran_to after ↦ ran_to after
              | raised_at after ↦ raised_at after
            ])
    go (returned result) h =
        let written = write job (complete begin end_ result) rows in
        release_dependents-NoWaitingChild end_ job job
          (cascade_children_on_parent_success end_ job written)
          (cascade_success-NoWaitingChild end_ job written)
    go (retries seconds ignore_retry) h = cc
    go breaks h =
        let written = write job (break_down begin end_ text) rows in
        let cascaded = cascade_children_on_parent_failure end_ job written in
        (
          fail_dependents-NoWaitingChild end_ job job cascaded
              (cascade_failure-NoWaitingChild end_ job written),
          fail_dependents-NoBarrier end_ job cascaded,
        )
