-- ===== src/Job/Row.antt =====
-- The columns of `queue_job` (job_worker/models/queue_job.py) and its states (job_worker/job.py).
use odoo_job_worker.Base.{ℕ, ◌-◌, Bool, true, false, String, Option, List, leb, if◌then◌else◌}

pub data State : Type 0 where
  waiting pending started done failed cancelled : State

-- A line of `exc_info`; `traceback` is the text of `traceback.format_exc()`.
pub data Diagnosis : Type 0 where
  traceback : String → Diagnosis
  parent_failed : (parent : ℕ) → Diagnosis
  parent_died : (parent : ℕ) → Diagnosis
  worker_died : Diagnosis
  timeout_exceeded : (seconds : ℕ) → Diagnosis
  worker_stalled : (age limit : ℕ) → Diagnosis
  stalled_beside : (age limit : ℕ) → Diagnosis

-- A signed number of seconds: `negsuc n` is -(n + 1).
pub data Seconds : Type 0 where
  pos : ℕ → Seconds
  negsuc : ℕ → Seconds

-- `(a - b).total_seconds()`
abbrev pub seconds_between : ℕ → ℕ → Seconds
seconds_between a b = if leb b a then pos (a - b) else negsuc (b - a - 1)

-- `max(0.0, d)`
abbrev pub at_least_zero : Seconds → Seconds
at_least_zero (pos n) = pos n
at_least_zero (negsuc n) = pos 0

-- What is to be called, with the arguments as their JSON text.
pub record Payload : Type 0 where
  pub model : String
  pub method : String
  pub ids : List ℕ
  pub args : String
  pub kwargs : String

-- The columns that `enqueue` fills and that no later operation of the queue writes.
pub record Settings : Type 0 where
  pub payload : Payload
  pub priority : ℕ
  pub channel : Option String
  pub max_retries : ℕ
  pub timeout : ℕ
  pub identity_key : Option String
  pub parent_id : Option ℕ
  pub graph_uuid : Option ℕ
  pub dependency_job_ids : Option (List ℕ)
  pub run_on_failure : Bool
  pub name : Option String
  pub company_id : Option ℕ
  pub create_date : ℕ

pub record Job : Type 0 where
  pub id : ℕ
  pub settings : Settings
  pub open settings use *
  pub state : State
  pub scheduled_at : Option ℕ
  pub attempts : Option ℕ
  pub exc_info : Option (List Diagnosis)
  pub heartbeat : Option ℕ
  pub worker_id : Option ℕ
  pub started_at : Option ℕ
  pub completed_at : Option ℕ
  pub cancelled_at : Option ℕ
  pub duration : Option Seconds
  pub result : Option String
  pub pending_dependency_count : ℕ
  pub write_date : ℕ

abbrev pub is_waiting : State → Bool
is_waiting waiting = true
is_waiting _ = false

abbrev pub is_pending : State → Bool
is_pending pending = true
is_pending _ = false

abbrev pub is_started : State → Bool
is_started started = true
is_started _ = false

abbrev pub is_done : State → Bool
is_done done = true
is_done _ = false

-- `state IN ('waiting', 'pending', 'started')`
abbrev pub is_active : State → Bool
is_active waiting = true
is_active pending = true
is_active started = true
is_active _ = false

-- `state IN ('done', 'failed', 'cancelled')`
abbrev pub is_terminal : State → Bool
is_terminal done = true
is_terminal failed = true
is_terminal cancelled = true
is_terminal _ = false
