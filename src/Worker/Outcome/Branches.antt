-- ===== src/Worker/Outcome/Branches.antt =====
-- What `handle_exception` leaves in the row of the job, on every branch.
use odoo_job_worker.Base.{
  ℕ, suc, ◌≡◌, ◌≤◌, ◌↔◌, true, false, some, none, String, or_zero, arith, [], ◌∷◌,
}
use odoo_job_worker.Job.{Job, pending, failed, traceback}
use odoo_job_worker.Worker.Outcome.{
  Config, Raised, transient_registry, retryable, other, after_exception, retry_after, fail_for_good,
  ends_job,
}

-- Whatever ended the method, `handle_exception` releases the claim and keeps the traceback; it fails
-- the job exactly on the branches that pass the failure on, and otherwise makes it pending at a time
-- that is set; and it counts the attempt once, or not at all.
pub after_exception_outcome :
    (c : Config) (now : ℕ) (text : String) (exc : Raised) (r : Job)
    → let a = after_exception c now text exc r in
      (a.worker_id ≡ none)
      × (a.heartbeat ≡ none)
      × (a.exc_info ≡ some (traceback text ∷ []))
      × ((a.state ≡ failed) ↔ (ends_job c now exc r ≡ true))
      × ((a.state ≡ pending) ↔ (ends_job c now exc r ≡ false))
      × ((a.scheduled_at ≡ none) ↔ (a.state ≡ failed))
      × or_zero r.attempts ≤ or_zero a.attempts
      × or_zero a.attempts ≤ suc (or_zero r.attempts)
unfolding after_exception retry_after fail_for_good
after_exception_outcome c now text (transient_registry seconds) r = (
  ground arith,
  ground arith,
  ground arith,
  ((λ e. ground arith), (λ e. ground arith)),
  ((λ e. ground arith), (λ e. ground arith)),
  ((λ e. ground arith), (λ e. ground arith)),
  ground arith,
  ground arith,
)
after_exception_outcome c now text (retryable seconds ignore_retry) r = (
  ground arith,
  ground arith,
  ground arith,
  ((λ e. ground arith), (λ e. ground arith)),
  ((λ e. ground arith), (λ e. ground arith)),
  ((λ e. ground arith), (λ e. ground arith)),
  ground arith,
  ground arith,
)
after_exception_outcome c now text other r = (
  ground arith,
  ground arith,
  ground arith,
  ((λ e. ground arith), (λ e. ground arith)),
  ((λ e. ground arith), (λ e. ground arith)),
  ((λ e. ground arith), (λ e. ground arith)),
  ground arith,
  ground arith,
)
