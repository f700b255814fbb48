-- ===== src/Monitor/Metrics.antt =====
-- The roll-ups of the metric snapshots (job_worker_monitor/models/queue_job_metric.py).
pub mod Conserved
pub mod Snapshot
use Prim.Native.Nat.{◌/◌, ◌%◌}
use odoo_job_worker.Base.{
  ℕ, ◌+◌, ◌-◌, ◌*◌, max, Bool, true, false, not, ◌&&◌, List, [], ◌∷◌, ◌++◌, map, String, str_eq,
  leb, ltb, ◌==◌, if◌then◌else◌, keep_if, length,
}
use odoo_job_worker.Monitor.Floats.{Floats}
use odoo_job_worker.Monitor.Groups.{distinct, total}

pub data Period : Type 0 where
  five_minutes one_hour one_day : Period

abbrev pub same_period : Period → Period → Bool
same_period five_minutes five_minutes = true
same_period one_hour one_hour = true
same_period one_day one_day = true
same_period _ _ = false

-- A row of `queue_job_metric`; its counts are not negative.
pub record Metric (D : Type 0) : Type 0 where
  pub snapshot_at : ℕ
  pub channel : String
  pub period : Period
  pub jobs_completed : ℕ
  pub jobs_failed : ℕ
  pub average_duration : D
  pub p95_duration : D
  pub queue_depth : ℕ
  pub active_workers : ℕ

-- `period = … AND snapshot_at >= start AND snapshot_at < end`
abbrev pub is_in_window : {D : Type 0} → Period → ℕ → ℕ → Metric D → Bool
is_in_window period start end r =
    same_period r.period period && (leb start r.snapshot_at && ltb r.snapshot_at end)

-- The rows of a period that are older than `seconds` are deleted.
unfoldable pub clean_up : {D : Type 0} → ℕ → ℕ → Period → List (Metric D) → List (Metric D)
clean_up now seconds period rows =
    keep_if (λ r. not (same_period r.period period && ltb (r.snapshot_at + seconds) now)) rows

-- `now.replace(minute=0, second=0, microsecond=0)`, for a unit of an hour or a day since the epoch.
abbrev pub start_of : ℕ → ℕ → ℕ
start_of unit now = now - now % unit

module _ {D : Type 0} (floats : Floats D) where
  sum_weighted : List (Metric D) → D
  sum_weighted [] = floats.nothing
  sum_weighted (r ∷ rows) =
      floats.plus (floats.times r.average_duration r.jobs_completed) (sum_weighted rows)

  -- `CASE WHEN SUM(jobs_completed) > 0 THEN SUM(average_duration * jobs_completed) /
  -- SUM(jobs_completed) ELSE 0 END`
  weighted_average : List (Metric D) → D
  unfolding sum_weighted
  weighted_average rows =
      let completed = total (λ r. r.jobs_completed) rows in
      if completed == 0 then floats.nothing else floats.over (sum_weighted rows) completed

  largest_p95 : List (Metric D) → D
  largest_p95 [] = floats.nothing
  largest_p95 (r ∷ rows) =
      let rest = largest_p95 rows in
      (elim rows as (λ _. D) [ [] ↦ r.p95_duration | ◌∷◌ _ _ ↦ floats.larger r.p95_duration rest ])

  largest_workers : List (Metric D) → ℕ
  largest_workers [] = 0
  largest_workers (r ∷ rows) = max r.active_workers (largest_workers rows)

  -- The row of a channel; `int(AVG(queue_depth))` rounds down.
  unfoldable pub roll_up_channel : Period → ℕ → List (Metric D) → String → Metric D
  unfolding weighted_average largest_p95 largest_workers
  roll_up_channel period stamp rows c =
      let group = keep_if (λ r. str_eq r.channel c) rows in
      record {
        snapshot_at = stamp;
        channel = c;
        period = period;
        jobs_completed = total (λ r. r.jobs_completed) group;
        jobs_failed = total (λ r. r.jobs_failed) group;
        average_duration = weighted_average group;
        p95_duration = largest_p95 group;
        queue_depth = total (λ r. r.queue_depth) group / length group;
        active_workers = largest_workers group;
      }

  -- `GROUP BY channel`
  unfoldable pub roll_up_rows : Period → ℕ → List (Metric D) → List (Metric D)
  unfolding roll_up_channel
  roll_up_rows period stamp rows =
      map (roll_up_channel period stamp rows) (distinct (map (λ r. r.channel) rows))

  -- Both roll-ups: from a period into the next, over the last full unit.
  unfoldable pub roll_up :
      (source target : Period) (unit retention now : ℕ) → List (Metric D) → List (Metric D)
  unfolding roll_up_rows clean_up
  roll_up source target unit retention now rows =
      let end = start_of unit now in
      let picked = keep_if (is_in_window source (end - unit) end) rows in
      clean_up now retention source (rows ++ roll_up_rows target end picked)

  unfoldable pub rollup_hourly : ℕ → List (Metric D) → List (Metric D)
  unfolding roll_up
  rollup_hourly now rows = roll_up five_minutes one_hour 3600 (7 * 86400) now rows

  unfoldable pub rollup_daily : ℕ → List (Metric D) → List (Metric D)
  unfolding roll_up
  rollup_daily now rows = roll_up one_hour one_day 86400 (90 * 86400) now rows
