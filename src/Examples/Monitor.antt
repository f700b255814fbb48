-- ===== src/Examples/Monitor.antt =====
-- A roll-up and two runs of an alert rule, with whole numbers for floats.
use Prim.Native.Nat.{◌/◌}
use odoo_job_worker.Base.{
  ℕ, ◌+◌, ◌*◌, max, ◌≡◌, refl, true, false, some, none, List, [], ◌∷◌, All, ltb, leb, arith,
  count_if, ◌&&◌, ◌||◌,
}
use odoo_job_worker.Job.{Job, pending, done, failed, is_done, is_pending, is_waiting}
use odoo_job_worker.Monitor.Floats.{Floats}
use odoo_job_worker.Monitor.Metrics.{
  five_minutes, one_hour, one_day, Metric, rollup_hourly, rollup_daily,
}
use odoo_job_worker.Monitor.Metrics.Conserved.{Adds, rollups_conserve}
use odoo_job_worker.Monitor.Groups.{total}
use odoo_job_worker.Monitor.Metrics.Snapshot.{has_ended, is_live, collect_5min_snapshot}
use odoo_job_worker.Monitor.Metrics.Snapshot.Counted.{snapshot_counts}
use odoo_job_worker.Monitor.Alerts.{is_failed, queue_depth, more, Watched, Outcome, run_all}
use odoo_job_worker.Monitor.Alerts.Spaced.{IsPaced, run_all-IsPaced}
use odoo_job_worker.Examples.Rows.{plain, row}

abbrev whole : Floats ℕ
whole = record {
  nothing = 0;
  of_count = (λ n. n);
  plus = ◌+◌;
  times = ◌*◌;
  over = ◌/◌;
  larger = max;
  is_less = ltb;
  is_at_most = leb;
  mean = (λ seconds. 0);
  percentile_95 = (λ seconds. 0);
}

abbrev sample : ℕ → ℕ → Metric ℕ
sample at_time count = record {
  snapshot_at = at_time;
  channel = "root";
  period = five_minutes;
  jobs_completed = count;
  jobs_failed = 1;
  average_duration = 2;
  p95_duration = 5;
  queue_depth = 3;
  active_workers = 2;
}

abbrev samples : List (Metric ℕ)
samples = sample 3700 4 ∷ sample 4000 6 ∷ sample 7300 9 ∷ []

rollups_conserve_example :
    (Adds
        (λ r. r.jobs_completed)
        five_minutes
        one_hour
        3600
        7500
        samples
        (rollup_hourly whole 7500 samples)
      × Adds
          (λ r. r.jobs_failed)
          five_minutes
          one_hour
          3600
          7500
          samples
          (rollup_hourly whole 7500 samples))
    × (Adds
          (λ r. r.jobs_completed)
          one_hour
          one_day
          86400
          7500
          samples
          (rollup_daily whole 7500 samples)
        × Adds
            (λ r. r.jobs_failed)
            one_hour
            one_day
            86400
            7500
            samples
            (rollup_daily whole 7500 samples))
rollups_conserve_example = rollups_conserve whole 7500 samples

abbrev deep : Watched ℕ
deep = record {
  rule = record {
    id = 1;
    active = true;
    metric = queue_depth;
    channel = none;
    operator = more;
    threshold = 0;
    evaluation_window_minutes = 5;
    cooldown_minutes = 60;
    last_triggered_at = some 100;
    last_value = 0;
  };
  posted_at = 100 ∷ [];
}

abbrev goes_well : ℕ → Outcome
goes_well id = record { answers = true; posts = true }

abbrev runs : List (ℕ × List Job × (ℕ → Outcome))
runs =
    (400, row 1 pending plain 0 ∷ [], goes_well)
    ∷ (3900, row 1 pending plain 0 ∷ [], goes_well)
    ∷ []

run_all-IsPaced_example : All IsPaced (run_all whole runs (deep ∷ []))
run_all-IsPaced_example =
    run_all-IsPaced whole runs (deep ∷ []) (record { spaced = tt; covers = omega arith }, tt)

abbrev table : List Job
table =
    record (row 1 done plain 0) { completed_at = some 800 }
    ∷ record (row 2 failed plain 0) { completed_at = some 900 }
    ∷ row 3 pending plain 0
    ∷ []

snapshot_counts_example :
    (total (λ m. m.jobs_completed) (collect_5min_snapshot whole false true 1000 table [])
      ≡ count_if (λ r. has_ended 1000 r && is_done r.state) table)
    × (total (λ m. m.jobs_failed) (collect_5min_snapshot whole false true 1000 table [])
        ≡ count_if (λ r. has_ended 1000 r && is_failed r.state) table)
    × (total (λ m. m.queue_depth) (collect_5min_snapshot whole false true 1000 table [])
        ≡ count_if (λ r. is_live r && (is_pending r.state || is_waiting r.state)) table)
snapshot_counts_example = snapshot_counts whole false true 1000 table (refl, (refl, (refl, tt)))
