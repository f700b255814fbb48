-- ===== src/Examples/Queue.antt =====
-- Enqueueing, the cascades under identity keys, and the autovacuum.
use odoo_job_worker.Base.{◌≡◌, true, false, some, none, List, [], ◌∷◌, arith}
use odoo_job_worker.Job.{Job, pending, done, failed}
use odoo_job_worker.Queue.{Queue}
use odoo_job_worker.Queue.Enqueue.{Request, Surroundings, new_job}
use odoo_job_worker.Queue.Buttons.{gc_loop}
use odoo_job_worker.Queue.Buttons.Vacuum.{unexpired, gc_loop-eq-unexpired}
use odoo_job_worker.Examples.Rows.{payload, settings, row}

abbrev env : Surroundings
env = record { model_exists = λ m. true; company = none; encodes = λ p. true }

abbrev request : Request
request = record {
  payload = payload;
  channel = none;
  priority = none;
  max_retries = none;
  scheduled_at = none;
  eta = none;
  description = none;
  identity_key = some "sync";
  parent_id = none;
  graph_uuid = none;
  timeout = none;
  dependency_job_ids = none;
  run_on_failure = false;
}

abbrev empty : Queue
empty = record { jobs = []; next_id = 1; notifications = 0 }

-- The queue with the first job for the key "sync".
first : Queue
first = record { jobs = new_job 5 1 none request ∷ []; next_id = 2; notifications = 1 }

abbrev old : List Job
old =
    record (row 1 done (settings none none false none) 0) { completed_at = some 3 }
    ∷ row 2 pending (settings none none false none) 0
    ∷ record (row 3 failed (settings none none false none) 0) { completed_at = some 4 }
    ∷ []

gc_loop-eq-unexpired_example : gc_loop 4 1 10 old ≡ some (unexpired 10 old)
gc_loop-eq-unexpired_example = gc_loop-eq-unexpired 10 4 1 old (omega arith) (omega arith)
