-- ===== src/Monitor/Health.antt =====
-- The computed fields that the monitor shows of a limit and of a job
-- (job_worker_monitor/models/queue_limit.py and queue_job.py beside it).
use odoo_job_worker.Base.{
  ℕ, ◌+◌, ◌≤◌, ◌≡◌, ◌≢◌, Bool, true, not, ◌&&◌, some, List, [], ◌∷◌, String, same_text, leb, ◌==◌,
  if◌then◌else◌, count_if, or_zero, Bool-cases, inl, inr, arith,
}
use odoo_job_worker.Job.{Job, failed, is_started, is_pending}
use odoo_job_worker.Worker.Acquire.{Limit, running_count, runs_fresh}
use odoo_job_worker.Worker.Outcome.{has_retries}
use odoo_job_worker.Monitor.Floats.{Floats}
use odoo_job_worker.Monitor.Alerts.{is_failed}

-- `current_running`, `current_pending`, `current_failed` and `utilization_percent`.
pub record Health (D : Type 0) : Type 0 where
  pub current_running : ℕ
  pub current_pending : ℕ
  pub current_failed : ℕ
  pub utilization_percent : D

abbrev pub is_of : String → Job → Bool
is_of name r = same_text r.channel (some name)

-- The limit of `queue_limit` is not negative; `(running / limit) * 100.0`.
unfoldable pub compute_health : {D : Type 0} → Floats D → List Job → Limit → Health D
compute_health floats rows l =
    let running = count_if (λ r. is_started r.state && is_of l.name r) rows in
    record {
      current_running = running;
      current_pending = count_if (λ r. is_pending r.state && is_of l.name r) rows;
      current_failed = count_if (λ r. is_failed r.state && is_of l.name r) rows;
      utilization_percent =
          if l.limit == 0
          then floats.nothing
          else floats.times (floats.over (floats.of_count running) l.limit) 100;
    }

-- A filter that lets pass no more counts no more.
count_if-narrower :
    (p q : Job → Bool) (rows : List Job)
    → ((r : Job) → p r ≡ true → q r ≡ true)
    → count_if p rows ≤ count_if q rows
count_if-narrower p q [] narrower = omega arith
count_if-narrower p q (r ∷ rows) narrower = elim (Bool-cases (p r)) [
  | inl hit ↦ rw (hit, narrower r hit) (omega (arith, count_if-narrower p q rows narrower))
  | inr miss ↦ elim (Bool-cases (q r)) [
    | inl more ↦ rw (miss, more) (omega (arith, count_if-narrower p q rows narrower))
    | inr less ↦ rw (miss, less) (count_if-narrower p q rows narrower)
  ]
]

-- The acquisition counts no more jobs in a channel than the monitor shows as running: the difference
-- are those whose heartbeat is stale.
pub shown_running_bounds :
    {D : Type 0} (floats : Floats D) (now stale : ℕ) (rows : List Job) (l : Limit)
    → running_count now stale (some l.name) rows ≤ (compute_health floats rows l).current_running
unfolding running_count compute_health
shown_running_bounds floats now stale rows l =
    count_if-narrower (λ r. runs_fresh now stale r && same_text r.channel (some l.name))
      (λ r. is_started r.state && is_of l.name r) rows (λ r fresh. ground (arith, fresh))

-- `state == "failed" and attempts >= max_retries`; a NULL reads as 0.
unfoldable pub is_retry_exhausted : Job → Bool
is_retry_exhausted r = is_failed r.state && leb r.max_retries (or_zero r.attempts)

-- Of a failed job: where its retries are limited, the monitor calls them exhausted exactly if one more
-- failure would not be retried; where they are not, it calls them exhausted although it would.
pub exhausted_iff_not_retried :
    (r : Job)
    → r.state ≡ failed
    → (r.max_retries ≢ 0
        → is_retry_exhausted r ≡ not (has_retries r.max_retries (or_zero r.attempts + 1)))
      × (r.max_retries ≡ 0
          → (is_retry_exhausted r ≡ true)
            × (has_retries r.max_retries (or_zero r.attempts + 1) ≡ true))
unfolding is_retry_exhausted
exhausted_iff_not_retried r fails = (
  (λ limited. limited_case r.max_retries (or_zero r.attempts) limited),
  (λ endless. endless_case r.max_retries (or_zero r.attempts) endless),
)
  where
    limited_case : (m a : ℕ) → m ≢ 0 → is_failed r.state && leb m a ≡ not (has_retries m (a + 1))
    limited_case m a limited = rw fails (ground arith)

    endless_case :
        (m a : ℕ) → m ≡ 0 → (is_failed r.state && leb m a ≡ true) × (has_retries m (a + 1) ≡ true)
    endless_case m a endless = (rw fails (ground arith), ground arith)
