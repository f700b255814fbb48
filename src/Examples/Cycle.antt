-- ===== src/Examples/Cycle.antt =====
-- A worker that pauses for an upgrade, loses its connection, and takes jobs again.
use odoo_job_worker.Base.{
  ℕ, ◌+◌, ◌≡◌, refl, true, false, some, none, List, [], ◌∷◌, All, leb, arith,
}
use odoo_job_worker.Gate.Probe.{open_state}
use odoo_job_worker.Gate.State.{Answer, Gate, new_gate, probed, blocked, broken}
use odoo_job_worker.Worker.Loop.{got, none_left, Round}
use odoo_job_worker.Worker.Loop.Cycle.{beaten, skipped, beat_fails, QueueWorker, Session, run}
use odoo_job_worker.Worker.Loop.Cycle.Reload.{takes_are_current, run_looks_first}
use odoo_job_worker.Worker.Loop.Cycle.Latency.{IsBefore, run_stops_taking}

-- The gate that the start of the thread asked at 8, and found open.
abbrev loaded_gate : Gate
loaded_gate = record (new_gate true 5 900 300) { checked_at = some 8; state = open_state }

abbrev worker : QueueWorker
worker = record {
  concurrency = 2;
  pool = record {
    active_job_ids = [];
    submitted = [];
    last_progress = 0;
    view = record {
      upgrade_gate = some loaded_gate;
      was_open = true;
      last_registry_check = some 0;
      registry_check_interval = 60;
      log = [];
    };
  };
  recovering = record {
    streak = 0;
    started_at = none;
    backoff_seconds = 1;
    backoff_cap_seconds = 60;
  };
}

abbrev takes : ℕ → ℕ → Answer → Round
takes now k answer = record {
  stopping = false;
  finished = [];
  at_time = now;
  answer = answer;
  acquired = got k;
  finished_late = [];
}

abbrev stops : ℕ → Round
stops now = record {
  stopping = true;
  finished = [];
  at_time = now;
  answer = blocked;
  acquired = none_left;
  finished_late = [];
}

-- Job 1 is taken at 10, job 2 at 14 on the cached view of the gate, and no job at 16.
abbrev upgrade : List Session
upgrade =
    record {
      listens = true;
      cycles =
          record {
            at_time = 10;
            answer = probed open_state;
            rounds = takes 10 1 (probed open_state) ∷ takes 14 2 blocked ∷ [];
            beat = beaten;
          }
          ∷ record {
            at_time = 16;
            answer = blocked;
            rounds = takes 16 3 blocked ∷ [];
            beat = beat_fails;
          }
          ∷ [];
      failed_at = 17;
    }
    ∷ []

-- The upgrade is over at 30: the registry is looked at before job 4.
abbrev reopened : List Session
reopened =
    record { listens = false; cycles = []; failed_at = 18 }
    ∷ record {
      listens = true;
      cycles =
          record { at_time = 20; answer = blocked; rounds = []; beat = skipped }
          ∷ record {
            at_time = 30;
            answer = probed open_state;
            rounds = takes 31 4 broken ∷ stops 32 ∷ [];
            beat = beaten;
          }
          ∷ [];
      failed_at = 33;
    }
    ∷ []

run_looks_first_example : takes_are_current (run reopened worker).pool.view.log ≡ true
run_looks_first_example = run_looks_first reopened worker refl

run_stops_taking_example : All (IsBefore (12 + 5)) (run upgrade worker).pool.view.log
run_stops_taking_example =
    run_stops_taking 12 upgrade worker loaded_gate refl refl refl refl
      (((early, (early, (closed 14, tt))), ((closed 16, (closed 16, tt)), tt)), tt)
  where
    early : leb 12 10 ≡ true → true ≡ false
    early e = ground arith

    closed : (now : ℕ) → leb 12 now ≡ true → false ≡ false
    closed now e = refl
