-- ===== src/Worker/Acquire.antt =====
-- `acquire_job_lock`: the query that selects a job, and what is written for the selected one.
-- The rows that other transactions hold locked are skipped.
pub mod Order
pub mod Limits
pub mod Claim
pub mod Overlap
use odoo_job_worker.Base.{
  ℕ, suc, ◌+◌, ◌-◌, Bool, true, false, not, ◌&&◌, ◌||◌, Option, none, some, List, [], ◌∷◌, ◌++◌,
  String, ◌==◌, leb, ltb, if◌then◌else◌, str_eq, same_text, count_if, update_if, or_zero, or_else,
}
use odoo_job_worker.Job.{
  Job, State, pending, started, failed, Diagnosis, parent_died, worker_died, is_started, is_done,
  is_pending, waits_on, barred_by, write,
}

-- A row of `queue_limit` (job_worker/models/queue_limit.py).
pub record Limit : Type 0 where
  pub name : String
  pub limit : ℕ
  pub rate_limit : Option ℕ

-- `t > NOW() - s * INTERVAL '1 second'`, and `t < …`; NULL meets neither.
abbrev pub newer_than : ℕ → ℕ → Option ℕ → Bool
newer_than now s none = false
newer_than now s (some t) = ltb now (t + s)

abbrev pub older_than : ℕ → ℕ → Option ℕ → Bool
older_than now s none = false
older_than now s (some t) = ltb (t + s) now

abbrev pub is_null : Option ℕ → Bool
is_null none = true
is_null (some _) = false

-- `fresh_running_counts`
abbrev pub runs_fresh : ℕ → ℕ → Job → Bool
runs_fresh now stale r = is_started r.state && newer_than now stale r.heartbeat

unfoldable pub running_count : ℕ → ℕ → Option String → List Job → ℕ
running_count now stale channel rows =
    count_if (λ r. runs_fresh now stale r && same_text r.channel channel) rows

-- `recent_starts_counts`
abbrev pub started_recently : ℕ → Job → Bool
started_recently now r =
    (is_started r.state || is_done r.state)
    && (newer_than now 1 r.heartbeat || newer_than now 1 (some r.write_date))

unfoldable pub recent_starts_count : ℕ → Option String → List Job → ℕ
recent_starts_count now channel rows =
    count_if (λ r. started_recently now r && same_text r.channel channel) rows

-- The join with `queue_limit`, where names are unique.
unfoldable pub find_limit : Option String → List Limit → Option Limit
find_limit channel [] = none
find_limit channel (l ∷ limits) =
    let rest = find_limit channel limits in if same_text channel (some l.name) then some l else rest

-- `COALESCE(l."limit", 1)`
abbrev pub concurrency_limit : Option Limit → ℕ
concurrency_limit none = 1
concurrency_limit (some l) = l.limit

-- `l.rate_limit IS NULL OR l.rate_limit = 0 OR starts < l.rate_limit`
abbrev pub rate_admits : Option ℕ → ℕ → Bool
rate_admits none starts = true
rate_admits (some rate) starts = rate == 0 || ltb starts rate

abbrev pub limit_admits : Option Limit → ℕ → Bool
limit_admits none starts = true
limit_admits (some l) starts = rate_admits l.rate_limit starts

abbrev pub is_due : ℕ → Option ℕ → Bool
is_due now none = true
is_due now (some t) = leb t now

-- Pending, or started and abandoned: the part of the WHERE clause on `state` and `heartbeat`.
abbrev pub is_takeable : ℕ → ℕ → Job → Bool
is_takeable now stale r =
    is_pending r.state
    || (is_started r.state && (is_null r.heartbeat || older_than now stale r.heartbeat))

-- The WHERE clause.
unfoldable pub is_eligible : ℕ → ℕ → List Limit → List Job → Job → Bool
is_eligible now stale limits rows r =
    is_takeable now stale r
    && (is_due now r.scheduled_at
        && (ltb (running_count now stale r.channel rows)
              (concurrency_limit (find_limit r.channel limits))
            && limit_admits (find_limit r.channel limits) (recent_starts_count now r.channel rows)))

-- `ORDER BY scheduled_at ASC, id ASC`: NULL comes last.
abbrev pub sooner : Option ℕ → ℕ → Option ℕ → ℕ → Bool
sooner (some t) i (some u) j = ltb t u || (t == u && ltb i j)
sooner (some t) i none j = true
sooner none i (some u) j = false
sooner none i none j = ltb i j

-- `ORDER BY priority ASC, scheduled_at ASC, id ASC`
unfoldable pub precedes : Job → Job → Bool
precedes r s =
    ltb r.priority s.priority
    || (r.priority == s.priority && sooner r.scheduled_at r.id s.scheduled_at s.id)

abbrev pub sooner_of : Job → Option Job → Option Job
sooner_of r none = some r
sooner_of r (some s) = if precedes r s then some r else some s

-- `ORDER BY … LIMIT 1` among the rows that meet a test.
unfoldable pub pick : (Job → Bool) → List Job → Option Job
pick p [] = none
pick p (r ∷ rows) = let rest = pick p rows in if p r then sooner_of r rest else rest

-- A fresh pickup.
unfoldable pub start : ℕ → ℕ → Job → Job
start now worker r = record r {
  state = started;
  heartbeat = some now;
  worker_id = some worker;
  write_date = now;
  started_at = some now;
}

-- A reclaim that is to run again.
unfoldable pub restart : ℕ → ℕ → ℕ → Job → Job
unfolding start
restart now worker attempts r = record (start now worker r) { attempts = some attempts }

-- `CASE WHEN exc_info IS NULL OR exc_info = '' THEN … ELSE exc_info || E'\n' || … END`
abbrev pub append_diagnosis : Option (List Diagnosis) → Diagnosis → Option (List Diagnosis)
append_diagnosis none d = some (d ∷ [])
append_diagnosis (some lines) d = some (lines ++ d ∷ [])

-- A reclaim that has used up its retries.
unfoldable pub give_up : ℕ → ℕ → Job → Job
give_up now attempts r = record r {
  state = failed;
  attempts = some attempts;
  exc_info = append_diagnosis r.exc_info worker_died;
  completed_at = some now;
  worker_id = none;
  heartbeat = none;
  write_date = now;
}

-- The SET clause of both cascading statements of this path.
unfoldable pub fail_orphan : ℕ → ℕ → Job → Job
fail_orphan now job r = record r {
  state = if r.run_on_failure then pending else failed;
  exc_info = if r.run_on_failure then r.exc_info else some (parent_died job ∷ []);
  write_date = now;
}

unfoldable pub cascade_worker_death : ℕ → ℕ → List Job → List Job
cascade_worker_death now job rows =
    update_if (barred_by job) (fail_orphan now job)
      (update_if (waits_on job) (fail_orphan now job) rows)

-- `max_retries and attempts > max_retries`
abbrev pub is_exhausted : ℕ → ℕ → Bool
is_exhausted max_retries attempts = not (max_retries == 0) && ltb max_retries attempts

unfoldable pub reclaim : ℕ → ℕ → Job → List Job → List Job × Option ℕ
reclaim now worker j rows =
    let attempts = or_zero j.attempts + 1 in
    if is_exhausted j.max_retries attempts
    then (cascade_worker_death now j.id (write j.id (give_up now attempts) rows), none)
    else (write j.id (restart now worker attempts) rows, some j.id)

unfoldable pub claim : ℕ → ℕ → Option Job → List Job → List Job × Option ℕ
claim now worker none rows = (rows, none)
claim now worker (some j) rows =
    if is_started j.state
    then reclaim now worker j rows
    else (write j.id (start now worker) rows, some j.id)

-- `locked k`: another transaction holds row `k`.
unfoldable pub acquire_job_lock :
    ℕ → ℕ → ℕ → List Limit → (ℕ → Bool) → List Job → List Job × Option ℕ
acquire_job_lock now stale worker limits locked rows =
    claim now worker (pick (λ r. is_eligible now stale limits rows r && not (locked r.id)) rows)
      rows
