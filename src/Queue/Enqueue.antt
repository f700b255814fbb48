-- ===== src/Queue/Enqueue.antt =====
-- `QueueJob.enqueue`: validation, deduplication by identity key, and the creation of the row.
pub mod Dedup
pub mod Repeat
pub mod Errors
use odoo_job_worker.Base.{
  ℕ, suc, ◌+◌, ◌≡◌, Bool, true, false, not, ◌&&◌, ◌||◌, Option, none, some, List, [], ◌∷◌, ◌++◌,
  String, ◌==◌, if◌then◌else◌, str_eq, is_some, is_dunder, truthy, or_none, or_else, length,
}
use odoo_job_worker.Job.{Job, Settings, Payload, State, waiting, pending, browse}
use odoo_job_worker.Queue.Defs.{Queue, find_active, index_refuses}

-- `eta`: a point in time, or a delay (a timedelta or a number of seconds).
pub data Eta : Type 0 where
  at : ℕ → Eta
  after : ℕ → Eta

-- The arguments of `enqueue`. `None` and an omitted argument are both `none`.
pub record Request : Type 0 where
  pub payload : Payload
  pub channel : Option String
  pub priority : Option ℕ
  pub max_retries : Option ℕ
  pub scheduled_at : Option ℕ
  pub eta : Option Eta
  pub description : Option String
  pub identity_key : Option String
  pub parent_id : Option ℕ
  pub graph_uuid : Option ℕ
  pub timeout : Option ℕ
  pub dependency_job_ids : Option (List ℕ)
  pub run_on_failure : Bool

pub data EnqueueError : Type 0 where
  unknown_model dunder_method conflicting_eta unencodable integrity_error : EnqueueError

pub data Result (A : Type 0) : Type 0 where
  ok : A → Result A
  err : EnqueueError → Result A

abbrev pub default_priority : ℕ
default_priority = 10

abbrev pub default_max_retries : ℕ
default_max_retries = 5

abbrev pub default_timeout : ℕ
default_timeout = 0

-- `_normalize_eta`
unfoldable pub normalize_eta : ℕ → Option Eta → Option ℕ
normalize_eta now none = none
normalize_eta now (some (at t)) = some t
normalize_eta now (some (after d)) = some (now + d)

abbrev pub or_scheduled : Option Eta → Option ℕ → Option Eta
or_scheduled (some e) scheduled = some e
or_scheduled none (some t) = some (at t)
or_scheduled none none = none

-- Both are given and differ. A delay beside `scheduled_at` is no datetime, which `to_datetime`
-- refuses with an error of its own.
abbrev pub eta_conflicts : Option Eta → Option ℕ → Bool
eta_conflicts (some (at t)) (some u) = not (t == u)
eta_conflicts (some (after d)) (some u) = true
eta_conflicts _ _ = false

abbrev pub or_root : Option String → Option String
or_root c = some (or_else (or_none c) "root")

-- The truth value of `dependency_job_ids`.
abbrev pub has_dependencies : Option (List ℕ) → Bool
has_dependencies (some (d ∷ ds)) = true
has_dependencies _ = false

abbrev pub dependency_count : Option (List ℕ) → ℕ
dependency_count none = 0
dependency_count (some ds) = length ds

-- The truth value of a many2one given by its id.
abbrev pub has_parent : Option ℕ → Bool
has_parent none = false
has_parent (some k) = not (k == 0)

abbrev pub initial_state : Option ℕ → Option (List ℕ) → State
initial_state parent dependencies =
    if has_parent parent || has_dependencies dependencies then waiting else pending

-- The row that `create(vals)` inserts.
unfoldable pub new_job : ℕ → ℕ → Option ℕ → Request → Job
new_job now id company req = record {
  id = id;
  settings = record {
    payload = req.payload;
    priority = or_else req.priority default_priority;
    channel = or_root req.channel;
    max_retries = or_else req.max_retries default_max_retries;
    timeout = or_else req.timeout default_timeout;
    identity_key = or_none req.identity_key;
    parent_id = req.parent_id;
    graph_uuid = req.graph_uuid;
    dependency_job_ids = req.dependency_job_ids;
    run_on_failure = req.run_on_failure;
    name = or_none req.description;
    company_id = company;
    create_date = now;
  };
  state = initial_state req.parent_id req.dependency_job_ids;
  scheduled_at = normalize_eta now (or_scheduled req.eta req.scheduled_at);
  attempts = some 0;
  exc_info = none;
  heartbeat = none;
  worker_id = none;
  started_at = none;
  completed_at = none;
  cancelled_at = none;
  duration = none;
  result = none;
  pending_dependency_count = dependency_count req.dependency_job_ids;
  write_date = now;
}

-- What the surroundings answer: the registry, the company of the environment (`none` where the
-- context says `company_id: None`), and whether `JobEncoder` knows what the payload holds.
pub record Surroundings : Type 0 where
  pub model_exists : String → Bool
  pub company : Option ℕ
  pub encodes : Payload → Bool

-- The foreign key of `parent_id`; 0 is stored as NULL.
abbrev pub parent_stands : Option ℕ → List Job → Bool
parent_stands none rows = true
parent_stands (some k) rows = (k == 0) || is_some (browse k rows)

abbrev pub returned : Queue → Option Job → Result (Queue × ℕ)
returned q (some existing) = ok (q, existing.id)
returned q none = err integrity_error

-- `create(vals)` within a savepoint, with the handler of `IntegrityError`. `racing` are the rows that
-- other transactions commit between the search for a duplicate and the insertion.
unfoldable pub create_job : ℕ → Surroundings → List Job → Request → Queue → Result (Queue × ℕ)
create_job now env racing req q =
    let raced = record q { jobs = q.jobs ++ racing } in
    let job = new_job now q.next_id env.company req in
    if index_refuses job raced.jobs || not (parent_stands req.parent_id raced.jobs)
    then (if truthy (or_none req.identity_key)
        then returned raced (find_active (or_none req.identity_key) raced.jobs)
        else err integrity_error)
    else ok (
      record {
        jobs = raced.jobs ++ job ∷ [];
        next_id = q.next_id + 1;
        notifications = q.notifications + 1;
      },
      q.next_id,
    )

unfoldable pub enqueue : ℕ → Surroundings → List Job → Request → Queue → Result (Queue × ℕ)
unfolding create_job
enqueue now env racing req q =
    if str_eq req.payload.model "" || not (env.model_exists req.payload.model)
    then err unknown_model
    else if is_dunder req.payload.method
    then err dunder_method
    else if eta_conflicts req.eta req.scheduled_at
    then err conflicting_eta
    else elim (find_active (or_none req.identity_key) q.jobs) [
      | some existing ↦ ok (q, existing.id)
      | none ↦ if env.encodes req.payload then create_job now env racing req q else err unencodable
    ]
