-- ===== src/Examples/Loop.antt =====
-- The main loop of a worker.
use odoo_job_worker.Base.{◌≤◌, true, false, some, List, [], ◌∷◌, length, arith}
use odoo_job_worker.Gate.Probe.{open_state}
use odoo_job_worker.Gate.State.{new_gate, probed}
use odoo_job_worker.Worker.Loop.{got, none_left, Round, Pool, process_jobs}
use odoo_job_worker.Worker.Loop.Slots.{process_jobs_within_concurrency}

abbrev rounds : List Round
rounds =
    record {
      stopping = false;
      finished = [];
      at_time = 20;
      answer = probed open_state;
      acquired = got 4;
      finished_late = [];
    }
    ∷ record {
      stopping = false;
      finished = 4 ∷ [];
      at_time = 21;
      answer = probed open_state;
      acquired = got 5;
      finished_late = [];
    }
    ∷ record {
      stopping = false;
      finished = [];
      at_time = 22;
      answer = probed open_state;
      acquired = none_left;
      finished_late = 5 ∷ [];
    }
    ∷ []

abbrev pool : Pool
pool = record {
  active_job_ids = 3 ∷ [];
  submitted = [];
  last_progress = 0;
  view = record {
    upgrade_gate = some (new_gate true 5 900 300);
    was_open = true;
    last_registry_check = some 0;
    registry_check_interval = 10;
    log = [];
  };
}

process_jobs_within_concurrency_example : length (process_jobs 2 rounds pool).0.active_job_ids ≤ 2
process_jobs_within_concurrency_example =
    process_jobs_within_concurrency 2 rounds pool (omega arith)
