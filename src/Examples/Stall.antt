-- ===== src/Examples/Stall.antt =====
-- A process that serves two databases, of which one has stalled.
use odoo_job_worker.Base.{ℕ, ◌-◌, ◌≡◌, refl, true, false, some, [], ◌∷◌}
use odoo_job_worker.Job.{Job, Diagnosis, started, stalled_beside, worker_died}
use odoo_job_worker.Worker.Acquire.{append_diagnosis, give_up}
use odoo_job_worker.Runner.Stall.{
  Served, find_stalled, stamp_stalled, stamp_one_db, stamp_stalled_jobs, check_worker_progress,
  stalled_jobs_are_named, IsStalledAt, Names,
}
use odoo_job_worker.Examples.Rows.{row, plain}

abbrev flying : Job
flying = record (row 1 started plain 0) { worker_id = some 8 }

abbrev sales : Served
sales = record {
  name = "sales";
  worker_uuid = 7;
  last_progress = 10;
  alive = true;
  jobs = [];
  reachable = false;
}

abbrev stock : Served
stock = record {
  name = "stock";
  worker_uuid = 8;
  last_progress = 95;
  alive = true;
  jobs = flying ∷ [];
  reachable = true;
}

abbrev named : Job
named = record flying { exc_info = some (stalled_beside 90 60 ∷ []) }

stalled_jobs_are_named_example :
    (j : ℕ) × (stalled : Served) × (reason : Diagnosis) × IsStalledAt 60 100
      (sales ∷ stock ∷ [])
      j
      stalled
    × Names 60 (100 - stalled.last_progress) stalled.name stock.name reason
    × (named ≡ record flying { exc_info = append_diagnosis flying.exc_info reason })
    × ((later attempts : ℕ)
        → (give_up later attempts named).exc_info
          ≡ append_diagnosis (append_diagnosis flying.exc_info reason) worker_died)
unfolding check_worker_progress find_stalled stamp_stalled_jobs stamp_one_db stamp_stalled
stalled_jobs_are_named_example =
    stalled_jobs_are_named 60 100 (λ name. false) (sales ∷ stock ∷ [])
      (sales ∷ record stock { jobs = named ∷ [] } ∷ []) 1 0 stock
      (record stock { jobs = named ∷ [] }) flying named refl refl refl refl refl refl refl
