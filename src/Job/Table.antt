-- ===== src/Job/Table.antt =====
-- Reading and writing rows: `search`, `browse`, `write`, and the conditions of SQL statements.
use odoo_job_worker.Base.{
  ℕ, Bool, false, ◌&&◌, Option, none, some, List, is_key, member, find_if, update_if, count_if,
  ◌==◌,
}
use odoo_job_worker.Job.Row.{Job, is_waiting}

abbrev pub with_id : ℕ → Job → Bool
with_id k r = r.id == k

-- `browse(k)`, for a row that may be gone
abbrev pub browse : ℕ → List Job → Option Job
browse k rows = find_if (with_id k) rows

-- `browse(k).write(…)`
abbrev pub write : ℕ → (Job → Job) → List Job → List Job
write k f rows = update_if (with_id k) f rows

-- the filter of `child_ids` by `waiting`
abbrev pub waits_on : ℕ → Job → Bool
waits_on parent r = is_waiting r.state && is_key r.parent_id parent

-- `dependency_job_ids IS NOT NULL AND dependency_job_ids @> [k]`
abbrev pub lists_dependency : Option (List ℕ) → ℕ → Bool
lists_dependency none k = false
lists_dependency (some ids) k = member k ids

-- `state = 'waiting'` and the condition above
abbrev pub barred_by : ℕ → Job → Bool
barred_by k r = is_waiting r.state && lists_dependency r.dependency_job_ids k

-- How many rows wait; every cascade consumes them.
abbrev pub waiting_count : List Job → ℕ
waiting_count rows = count_if (λ r. is_waiting r.state) rows
