-- ===== src/Examples/Rows.antt =====
-- The rows that the examples share.
use odoo_job_worker.Base.{ℕ, ◌+◌, Bool, true, false, Option, none, some, List, [], ◌∷◌, String}
use odoo_job_worker.Job.{
  Job, Settings, Payload, State, waiting, started, failed, cancelled, parent_failed,
}

abbrev pub payload : Payload
payload = record {
  model = "res.partner";
  method = "refresh";
  ids = 7 ∷ [];
  args = "[]";
  kwargs = "{}";
}

-- A job of channel "root" with two retries, created at 0.
abbrev pub settings : Option ℕ → Option (List ℕ) → Bool → Option String → Settings
settings parent dependencies on_error key = record {
  payload = payload;
  priority = 10;
  channel = some "root";
  max_retries = 2;
  timeout = 0;
  identity_key = key;
  parent_id = parent;
  graph_uuid = none;
  dependency_job_ids = dependencies;
  run_on_failure = on_error;
  name = none;
  company_id = none;
  create_date = 0;
}

abbrev pub row : ℕ → State → Settings → ℕ → Job
row id state s count = record {
  id = id;
  settings = s;
  state = state;
  scheduled_at = none;
  attempts = some 0;
  exc_info = none;
  heartbeat = none;
  worker_id = none;
  started_at = none;
  completed_at = none;
  cancelled_at = none;
  duration = none;
  result = none;
  pending_dependency_count = count;
  write_date = 0;
}

abbrev pub plain : Settings
plain = settings none none false none

abbrev pub child : ℕ → Job
child parent = row (parent + 1) waiting (settings (some parent) none false none) 0

-- A job, its child and its grandchild.
abbrev pub chain : List Job
chain = row 1 started plain 0 ∷ child 1 ∷ child 2 ∷ []

-- A job with an on_error child, which has a child.
abbrev pub rescue : List Job
rescue = row 1 started plain 0 ∷ row 2 waiting (settings (some 1) none true none) 0 ∷ child 2 ∷ []

-- A barrier over the jobs 1 and 2.
abbrev pub barrier : Job
barrier = row 3 waiting (settings none (some (1 ∷ 2 ∷ [])) false none) 2

abbrev pub group : List Job
group = row 1 started plain 0 ∷ row 2 started plain 0 ∷ barrier ∷ []

-- The state and the count of a row after a write at 9, and the reason of its failure.
abbrev pub turned : State → Job → Job
turned state r = record r { state = state; write_date = 9 }

abbrev pub failed_under : ℕ → Job → Job
failed_under parent r = record (turned failed r) { exc_info = some (parent_failed parent ∷ []) }

abbrev pub cancelled_now : Job → Job
cancelled_now r = record (turned cancelled r) { cancelled_at = some 9 }
