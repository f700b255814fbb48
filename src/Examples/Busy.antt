-- ===== src/Examples/Busy.antt =====
-- A worker with two slots that drains a long queue of short jobs: each job ends before the next round.
use odoo_job_worker.Base.{ℕ, ◌≡◌, refl, true, false, some, List, [], ◌∷◌, arith}
use odoo_job_worker.Gate.Probe.{open_state}
use odoo_job_worker.Gate.State.{new_gate, probed, check, record_state}
use odoo_job_worker.Runner.Stall.{Served, is_stalled}
use odoo_job_worker.Worker.View.{upgrade_gate_is_open, ask, note_answer, note_take}
use odoo_job_worker.Worker.Loop.{got, Round, Pool, unfinished, process_jobs}
use odoo_job_worker.Worker.Loop.Busy.{busy_worker_looks_stalled}

abbrev short : ℕ → ℕ → ℕ → Round
short now last k = record {
  stopping = false;
  finished = last ∷ [];
  at_time = now;
  answer = probed open_state;
  acquired = got k;
  finished_late = [];
}

abbrev rounds : List Round
rounds = short 60 0 1 ∷ short 120 1 2 ∷ short 180 2 3 ∷ []

abbrev pool : Pool
pool = record {
  active_job_ids = [];
  submitted = [];
  last_progress = 50;
  view = record {
    upgrade_gate = some (new_gate true 5 900 300);
    was_open = true;
    last_registry_check = some 50;
    registry_check_interval = 60;
    log = [];
  };
}

abbrev served : Served
served = record {
  name = "production";
  worker_uuid = 77;
  last_progress = 50;
  alive = true;
  jobs = [];
  reachable = true;
}

-- The loop still runs, and has taken three jobs.
still_busy :
    ((process_jobs 2 rounds pool).1 ≡ unfinished)
    × ((process_jobs 2 rounds pool).0.submitted ≡ 1 ∷ 2 ∷ 3 ∷ [])
unfolding process_jobs upgrade_gate_is_open ask note_answer note_take check record_state
still_busy = (refl, refl)

busy_worker_looks_stalled_example : is_stalled 120 181 served ≡ true
unfolding process_jobs upgrade_gate_is_open ask note_answer note_take check record_state
busy_worker_looks_stalled_example =
    busy_worker_looks_stalled 2 120 181 rounds pool served (refl, (refl, (refl, tt))) refl refl
      (omega arith)
