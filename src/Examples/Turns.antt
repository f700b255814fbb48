-- ===== src/Examples/Turns.antt =====
-- A job that is taken, and one whose method raises.
use odoo_job_worker.Base.{suc, ◌≡◌, ◌≤◌, ◌↔◌, true, false, some, none, List, [], ◌∷◌, or_zero}
use odoo_job_worker.Job.{Job, pending, started, failed, traceback}
use odoo_job_worker.Worker.Acquire.{Limit}
use odoo_job_worker.Worker.Outcome.{Config, retryable, after_exception, ends_job}
use odoo_job_worker.Worker.Outcome.Branches.{after_exception_outcome}
use odoo_job_worker.Examples.Rows.{plain, row}

abbrev limits : List Limit
limits = record { name = "root"; limit = 2; rate_limit = some 5 } ∷ []

abbrev line : List Job
line = row 1 pending plain 0 ∷ row 2 pending (record plain { priority = 5 }) 0 ∷ []

abbrev config : Config
config = record {
  worker_uuid = 77;
  max_backoff_seconds = 3600;
  registry_check_interval = 60;
  transient_registry_max_age_seconds = 900;
}

abbrev raised : Job
raised = after_exception config 100 "boom" (retryable (some 30) false) (row 1 started plain 0)

after_exception_outcome_example :
    (raised.worker_id ≡ none)
    × (raised.heartbeat ≡ none)
    × (raised.exc_info ≡ some (traceback "boom" ∷ []))
    × ((raised.state ≡ failed)
        ↔ (ends_job config 100 (retryable (some 30) false) (row 1 started plain 0) ≡ true))
    × ((raised.state ≡ pending)
        ↔ (ends_job config 100 (retryable (some 30) false) (row 1 started plain 0) ≡ false))
    × ((raised.scheduled_at ≡ none) ↔ (raised.state ≡ failed))
    × or_zero (row 1 started plain 0).attempts ≤ or_zero raised.attempts
    × or_zero raised.attempts ≤ suc (or_zero (row 1 started plain 0).attempts)
after_exception_outcome_example =
    after_exception_outcome config 100 "boom" (retryable (some 30) false) (row 1 started plain 0)
