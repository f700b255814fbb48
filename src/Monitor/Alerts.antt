-- ===== src/Monitor/Alerts.antt =====
-- The alert rules (job_worker_monitor/models/queue_job_alert_rule.py).
pub mod Spaced
use odoo_job_worker.Base.{
  ℕ, ◌+◌, ◌*◌, Bool, true, false, not, ◌&&◌, ◌||◌, Option, none, some, List, [], ◌∷◌, String, leb,
  ltb, if◌then◌else◌, count_if, keep_if, length, member, truthy, same_text, map,
}
use odoo_job_worker.Job.{
  Job, Seconds, pos, negsuc, seconds_between, is_waiting, is_pending, is_started, is_done, State,
  failed,
}
use odoo_job_worker.Monitor.Floats.{Floats}

pub data Measure : Type 0 where
  failed_count queue_depth stale_workers p95_duration average_wait_time : Measure

pub data Operator : Type 0 where
  more at_least less at_most : Operator

-- The windows are not negative.
pub record Rule (D : Type 0) : Type 0 where
  pub id : ℕ
  pub active : Bool
  pub metric : Measure
  pub channel : Option String
  pub operator : Operator
  pub threshold : D
  pub evaluation_window_minutes : ℕ
  pub cooldown_minutes : ℕ
  pub last_triggered_at : Option ℕ
  pub last_value : D

-- `AND channel = …`, where the rule names one.
abbrev pub is_for : Option String → Job → Bool
is_for channel r = if truthy channel then same_text r.channel channel else true

-- `t >= NOW - minutes`, which no NULL meets.
abbrev pub is_since : ℕ → ℕ → Option ℕ → Bool
is_since now minutes none = false
is_since now minutes (some t) = leb now (t + minutes * 60)

abbrev pub is_failed : State → Bool
is_failed failed = true
is_failed _ = false

-- `heartbeat IS NULL OR heartbeat < NOW - 60 seconds`
abbrev pub is_stale : ℕ → Option ℕ → Bool
is_stale now none = true
is_stale now (some t) = ltb (t + 60) now

-- `COUNT(DISTINCT worker_id)`: a NULL does not count.
unfoldable pub workers_of : List Job → List ℕ
workers_of [] = []
workers_of (r ∷ rows) =
    let rest = workers_of rows in
    elim r.worker_id [ none ↦ rest | some w ↦ if member w rest then rest else w ∷ rest ]

-- `duration > 0`
unfoldable pub durations : List Job → List Seconds
durations [] = []
durations (r ∷ rows) =
    let rest = durations rows in
    elim r.duration [
      | none ↦ rest
      | some (pos d) ↦ if ltb 0 d then pos d ∷ rest else rest
      | some (negsuc d) ↦ rest
    ]

-- `started_at - create_date`, of those that started since.
unfoldable pub waits : ℕ → ℕ → List Job → List Seconds
waits now minutes [] = []
waits now minutes (r ∷ rows) =
    let rest = waits now minutes rows in
    elim r.started_at [
      | none ↦ rest
      | some t ↦
          if is_since now minutes (some t) then seconds_between t r.create_date ∷ rest else rest
    ]

-- `now < last_triggered_at + cooldown`
abbrev pub cools_down : ℕ → ℕ → Option ℕ → Bool
cools_down now minutes none = false
cools_down now minutes (some t) = ltb now (t + minutes * 60)

-- A rule with the times at which its notice was posted, newest first.
pub record Watched (D : Type 0) : Type 0 where
  pub rule : Rule D
  pub posted_at : List ℕ

-- Whether the query of a rule returns, and whether its notice can be posted.
pub record Outcome : Type 0 where
  pub answers : Bool
  pub posts : Bool

module _ {D : Type 0} (floats : Floats D) where
  measure : ℕ → ℕ → Measure → List Job → D
  unfolding workers_of durations waits
  measure now minutes failed_count rows =
      floats.of_count
        (count_if (λ r. is_failed r.state && is_since now minutes r.completed_at) rows)
  measure now minutes queue_depth rows =
      floats.of_count (count_if (λ r. is_pending r.state || is_waiting r.state) rows)
  measure now minutes stale_workers rows =
      floats.of_count
        (length (workers_of (keep_if (λ r. is_started r.state && is_stale now r.heartbeat) rows)))
  measure now minutes p95_duration rows =
      floats.percentile_95
        (durations (keep_if (λ r. is_done r.state && is_since now minutes r.completed_at) rows))
  measure now minutes average_wait_time rows = floats.mean (waits now minutes rows)

  unfoldable pub evaluate_metric : ℕ → List Job → Rule D → D
  unfolding measure
  evaluate_metric now jobs rule =
      measure now rule.evaluation_window_minutes rule.metric (keep_if (is_for rule.channel) jobs)

  unfoldable pub check_threshold : Operator → D → D → Bool
  check_threshold more value threshold = floats.is_less threshold value
  check_threshold at_least value threshold = floats.is_at_most threshold value
  check_threshold less value threshold = floats.is_less value threshold
  check_threshold at_most value threshold = floats.is_at_most value threshold

  -- One rule of the loop; its exceptions are caught, and what was written before stays.
  unfoldable pub evaluate_rule : ℕ → List Job → Outcome → Watched D → Watched D
  unfolding evaluate_metric check_threshold
  evaluate_rule now jobs o w =
      let value = evaluate_metric now jobs w.rule in
      let measured = record w { rule = record w.rule { last_value = value } } in
      if not o.answers
      then w
      else if not (check_threshold w.rule.operator value w.rule.threshold)
      then measured
      else if cools_down now w.rule.cooldown_minutes w.rule.last_triggered_at
      then measured
      else record {
        rule = record w.rule { last_value = value; last_triggered_at = some now };
        posted_at = if o.posts then now ∷ w.posted_at else w.posted_at;
      }

  unfoldable pub evaluate_all_rules :
      ℕ → List Job → (ℕ → Outcome) → List (Watched D) → List (Watched D)
  unfolding evaluate_rule
  evaluate_all_rules now jobs outcome [] = []
  evaluate_all_rules now jobs outcome (w ∷ ws) =
      (if w.rule.active then evaluate_rule now jobs (outcome w.rule.id) w else w)
      ∷ evaluate_all_rules now jobs outcome ws

  -- `action_test_rule`: the value and whether it meets the threshold; nothing is written.
  unfoldable pub test_rule : ℕ → List Job → Rule D → D × Bool
  unfolding evaluate_metric check_threshold
  test_rule now jobs rule =
      let value = evaluate_metric now jobs rule in
      (value, check_threshold rule.operator value rule.threshold)

  -- The runs of the scheduled action: the time, the table, and what each rule meets, by its id.
  unfoldable pub run_all : List (ℕ × List Job × (ℕ → Outcome)) → List (Watched D) → List (Watched D)
  unfolding evaluate_all_rules
  run_all [] ws = ws
  run_all ((now, jobs, outcome) ∷ runs) ws = run_all runs (evaluate_all_rules now jobs outcome ws)
