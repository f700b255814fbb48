-- ===== src/Monitor/Metrics/Snapshot.antt =====
-- The 5-minute snapshot (`_collect_5min_snapshot`).
pub mod Counted
use odoo_job_worker.Base.{
  ℕ, suc, ◌+◌, ◌≡◌, ◌≢◌, ◌∙◌, refl, sym, ap, Bool, true, false, not, ◌&&◌, ◌||◌, Option, none, some,
  List, [], ◌∷◌, ◌++◌, map, String, str_eq, same_text, is_some, or_else, leb, ltb, ◌==◌,
  if◌then◌else◌, count_if, keep_if, length, All, All-map, Bool-cases, inl, inr, arith,
}
use odoo_job_worker.Job.{Job, is_done, is_active, is_pending, is_waiting, is_started}
use odoo_job_worker.Worker.Acquire.{newer_than}
use odoo_job_worker.Monitor.Floats.{Floats}
use odoo_job_worker.Monitor.Alerts.{durations, workers_of, is_failed}
use odoo_job_worker.Monitor.Groups.{
  distinct, total, total_of, occurrences, occurrences-distinct, occurs, total_by, total_by-once,
}
use odoo_job_worker.Monitor.Metrics.{Metric, five_minutes}

-- `COALESCE(channel, 'root')`
abbrev pub label : Job → String
label r = or_else r.channel "root"

-- `completed_at >= now - 5 minutes AND completed_at <= now`
abbrev pub ended_lately : ℕ → Option ℕ → Bool
ended_lately now none = false
ended_lately now (some t) = leb now (t + 300) && leb t now

abbrev pub has_ended : ℕ → Job → Bool
has_ended now r = ended_lately now r.completed_at

abbrev pub is_live : Job → Bool
is_live r = is_active r.state

-- The group that a dictionary by label keeps of a query that groups by the raw channel: of the groups of
-- no channel and of the channel root it keeps the one that the database gives last.
unfoldable pub kept_group : Bool → (Job → Bool) → List Job → String → List Job
kept_group null_last p rows c =
    let named = keep_if (λ r. p r && same_text r.channel (some c)) rows in
    let nulls = keep_if (λ r. p r && not (is_some r.channel)) rows in
    if not (str_eq c "root")
    then named
    else if null_last
    then (if length nulls == 0 then named else nulls)
    else if length named == 0
    then nulls
    else named

-- The channels of both queries.
abbrev pub channels_of : ℕ → List Job → List String
channels_of now rows =
    distinct (map label (keep_if (has_ended now) rows) ++ map label (keep_if is_live rows))

module _ {D : Type 0} (floats : Floats D) where
  unfoldable pub snapshot_row : Bool → Bool → ℕ → List Job → String → Metric D
  unfolding kept_group durations workers_of
  snapshot_row null_last null_last_live now rows c =
      let ended = kept_group null_last (has_ended now) rows c in
      let live = kept_group null_last_live is_live rows c in
      record {
        snapshot_at = now;
        channel = c;
        period = five_minutes;
        jobs_completed = count_if (λ r. is_done r.state) ended;
        jobs_failed = count_if (λ r. is_failed r.state) ended;
        average_duration = floats.mean (durations (keep_if (λ r. is_done r.state) ended));
        p95_duration = floats.percentile_95 (durations (keep_if (λ r. is_done r.state) ended));
        queue_depth = count_if (λ r. is_pending r.state || is_waiting r.state) live;
        active_workers =
            length (
              workers_of (keep_if (λ r. is_started r.state && newer_than now 60 r.heartbeat) live));
      }

  -- `null_last` and `null_last_live` tell in which order the database gives the groups of the two
  -- queries.
  unfoldable pub collect_5min_snapshot :
      Bool → Bool → ℕ → List Job → List (Metric D) → List (Metric D)
  unfolding snapshot_row distinct
  collect_5min_snapshot null_last null_last_live now rows metrics =
      metrics ++ map (snapshot_row null_last null_last_live now rows) (channels_of now rows)
