-- ===== src/Delay.antt =====
-- job_worker/delay.py: graphs of calls, and the jobs that `delay()` enqueues for them. A graph is a
-- tree here: no delayable stands at two places of it, and none is delayed twice, so the attributes
-- that tie a delayable to others are unset until it is reached, and no generated job is reused.
pub mod Each
pub mod Steps
pub mod Plain
pub mod Group
pub mod Chain
pub mod Handlers
pub mod Errors
pub mod Split
use odoo_job_worker.Base.{
  ℕ, ◌+◌, Bool, true, false, Option, none, some, String, List, [], ◌∷◌, ◌++◌, or_else,
  if◌then◌else◌, ◌||◌,
}
use odoo_job_worker.Queue.{Queue}
use odoo_job_worker.Queue.Enqueue.{
  Eta, at, after, Request, Surroundings, EnqueueError, Result, enqueue, eta_conflicts, or_scheduled,
  or_root, default_priority, default_max_retries, default_timeout,
}

-- What a `Delayable` is to call, and the properties of the job. `identity_key` is what a callable
-- key gives for the delayable.
pub record Call : Type 0 where
  pub model : String
  pub ids : List ℕ
  pub job_method : Option String
  pub args : String
  pub kwargs : String
  pub priority : Option ℕ
  pub eta : Option Eta
  pub max_retries : Option ℕ
  pub description : Option String
  pub channel : Option String
  pub identity_key : Option String
  pub timeout : Option ℕ

-- `Delayable`, `DelayableGroup` and `DelayableChain`, each with its `on_done` and `on_error` lists.
mutual
  pub data Delayable : Type 0 where
    single : Call → Delayables → Delayables → Delayable
    group : Delayables → Delayables → Delayables → Delayable
    chain : Delayables → Delayables → Delayables → Delayable

  pub data Delayables : Type 0 where
    nil : Delayables
    cons : Delayable → Delayables → Delayables

-- What the scheduler of a delayable sets on it before it calls `delay()`.
pub record Wiring : Type 0 where
  pub graph_uuid : Option ℕ
  pub parent_job_id : Option ℕ
  pub dependency_job_ids : Option (List ℕ)
  pub run_on_failure : Bool

abbrev pub unwired : Wiring
unwired = record {
  graph_uuid = none;
  parent_job_id = none;
  dependency_job_ids = none;
  run_on_failure = false;
}

-- The queue, and how many uuids have been drawn.
pub record Scheduling : Type 0 where
  pub queue : Queue
  pub drawn : ℕ

-- `no_job`: a member of a group is itself a group or a chain, whose `delay()` returns `None`, of
-- which `.id` is then read. `no_chunk_size`: `range` refuses a step of 0.
pub data DelayError : Type 0 where
  no_method no_job conflicting_eta no_chunk_size : DelayError
  refused : EnqueueError → DelayError

pub data Delayed {ℓ} (A : Type ℓ) : Type ℓ where
  ok : A → Delayed A
  err : DelayError → Delayed A

infixl 5 ◌>>=◌
abbrev pub ◌>>=◌ {ℓ κ} : {A : Type ℓ} {B : Type κ} → Delayed A → (A → Delayed B) → Delayed B
ok a >>= f = f a
err e >>= f = err e

-- `delayable` of job_worker/models/base.py, on the properties and `scheduled_at`.
unfoldable pub delayable : Call → Option ℕ → Delayed Call
delayable call scheduled_at =
    if eta_conflicts call.eta scheduled_at
    then err conflicting_eta
    else ok (record call { eta = or_scheduled call.eta scheduled_at })

abbrev pub normalized_eta : ℕ → Option Eta → Option Eta
normalized_eta now none = none
normalized_eta now (some (at t)) = some (at t)
normalized_eta now (some (after d)) = some (at (now + d))

-- The arguments of `enqueue` in `Delayable.delay`.
unfoldable pub request : ℕ → Wiring → String → Call → Request
request now w method call = record {
  payload = record {
    model = call.model;
    method = method;
    ids = call.ids;
    args = call.args;
    kwargs = call.kwargs;
  };
  channel = or_root call.channel;
  priority = some (or_else call.priority default_priority);
  max_retries = some (or_else call.max_retries default_max_retries);
  scheduled_at = none;
  eta = normalized_eta now call.eta;
  description = call.description;
  identity_key = call.identity_key;
  parent_id = w.parent_job_id;
  graph_uuid = w.graph_uuid;
  timeout = some (or_else call.timeout default_timeout);
  dependency_job_ids = w.dependency_job_ids;
  run_on_failure = w.run_on_failure;
}

abbrev pub is_empty : Delayables → Bool
is_empty nil = true
is_empty (cons d ds) = false

abbrev pub enqueued : Scheduling → Result (Queue × ℕ) → Delayed (Scheduling × ℕ)
enqueued s (Result.ok (q, job)) = ok (record s { queue = q }, job)
enqueued s (Result.err e) = err (refused e)

-- The end of `enqueue` in `Delayable.delay`, for the method that was stored.
unfoldable pub enqueue_call :
    ℕ → Surroundings → Wiring → Option String → Call → Scheduling → Delayed (Scheduling × ℕ)
enqueue_call now env w none call s = err no_method
enqueue_call now env w (some method) call s =
    enqueued s (enqueue now env [] (request now w method call) s.queue)

-- `self._graph_uuid or str(uuid4())`; `draw n` is the uuid of the n-th call of `uuid4`.
abbrev pub own_uuid : (ℕ → ℕ) → Option ℕ → Scheduling → Option ℕ × Scheduling
own_uuid draw (some g) s = (some g, s)
own_uuid draw none s = (some (draw s.drawn), record s { drawn = s.drawn + 1 })

-- A single delayable draws a uuid only if something follows it.
abbrev pub single_uuid :
    (ℕ → ℕ) → Delayables → Delayables → Option ℕ → Scheduling → Option ℕ × Scheduling
single_uuid draw nil nil g s = (g, s)
single_uuid draw _ _ g s = own_uuid draw g s

abbrev pub member_id : Scheduling × Option ℕ → Delayed (Scheduling × ℕ)
member_id (s, some job) = ok (s, job)
member_id (s, none) = err no_job

-- What the head of a chain inherits of the chain, and a later link of the link before it.
abbrev pub link_wiring : Option ℕ → Wiring → Bool → Option ℕ → Wiring
link_wiring g w first (some previous) = record {
  graph_uuid = g;
  parent_job_id = some previous;
  dependency_job_ids = if first then w.dependency_job_ids else none;
  run_on_failure = w.run_on_failure;
}
link_wiring g w first none = record {
  graph_uuid = g;
  parent_job_id = if first then w.parent_job_id else none;
  dependency_job_ids = if first then w.dependency_job_ids else none;
  run_on_failure = w.run_on_failure;
}

module _ (now : ℕ) (env : Surroundings) (draw : ℕ → ℕ) where
  unfoldable mutual
    -- `delay()`; the answer is the generated job, which a group and a chain do not have.
    pub delay : Wiring → Delayable → Scheduling → Delayed (Scheduling × Option ℕ)
    delay w (single call nexts errors) s = do
      let (g, s) = single_uuid draw nexts errors w.graph_uuid s
      let w = record w { graph_uuid = g }
      (s, job) ← enqueue_call now env w call.job_method call s
      let below = record unwired { graph_uuid = g; parent_job_id = some job }
      s ← delay_all below nexts s
      s ← delay_all (record below { run_on_failure = true }) errors s
      ok (s, some job)
    delay w (group members nexts errors) s = do
      let (g, s) = own_uuid draw w.graph_uuid s
      (s, jobs) ← delay_members (record w { graph_uuid = g }) members s
      let above = record unwired { graph_uuid = g; dependency_job_ids = some jobs }
      s ← delay_all above nexts s
      s ← delay_all (record above { run_on_failure = true }) errors s
      ok (s, none)
    delay w (chain links nexts errors) s = do
      let (g, s) = own_uuid draw w.graph_uuid s
      (s, last) ← delay_links g w true none links s
      let below = record unwired { graph_uuid = g; parent_job_id = last }
      s ← delay_all below nexts s
      s ← delay_all (record below { run_on_failure = true }) errors s
      ok (s, none)

    -- The loops over `on_done` and `on_error` lists.
    pub delay_all : Wiring → Delayables → Scheduling → Delayed Scheduling
    delay_all w nil s = ok s
    delay_all w (cons d ds) s = do (s, job) ← delay w d s; delay_all w ds s

    -- The loop over the members of a group, with their jobs.
    pub delay_members : Wiring → Delayables → Scheduling → Delayed (Scheduling × List ℕ)
    delay_members w nil s = ok (s, [])
    delay_members w (cons d ds) s = do
      answer ← delay w d s
      (s, job) ← member_id answer
      (s, jobs) ← delay_members w ds s
      ok (s, job ∷ jobs)

    -- The loop over the links of a chain, with `previous_job`.
    pub delay_links :
        Option ℕ
        → Wiring
        → Bool
        → Option ℕ
        → Delayables
        → Scheduling
        → Delayed (Scheduling × Option ℕ)
    delay_links g w first previous nil s = ok (s, previous)
    delay_links g w first previous (cons d ds) s = do
      (s, job) ← delay (link_wiring g w first previous) d s
      delay_links g w false job ds s
