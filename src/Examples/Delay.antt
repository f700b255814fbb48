-- ===== src/Examples/Delay.antt =====
-- Graphs of delayables.
use odoo_job_worker.Base.{
  ℕ, ◌+◌, ◌≡◌, refl, true, false, some, none, List, [], ◌∷◌, ◌++◌, length, arith, is_dunder,
}
use odoo_job_worker.Job.{Job, pending, cancelled}
use odoo_job_worker.Graph.Barrier.{release_row, release_dependents_of}
use odoo_job_worker.Graph.Barrier.Outcome.{succeeded, deliver, deliver_all}
use odoo_job_worker.Queue.{index_refuses}
use odoo_job_worker.Queue.Enqueue.{Surroundings, enqueue, create_job, new_job}
use odoo_job_worker.Delay.{
  Call, Delayable, single, group, nil, cons, Wiring, unwired, Scheduling, ok, request, enqueue_call,
  delay,
}
use odoo_job_worker.Delay.Steps.{Enqueued, delay-Enqueued}
use odoo_job_worker.Delay.Plain.{IsPlain}
use odoo_job_worker.Delay.Group.{group_before, group_before_verdict}
use odoo_job_worker.Delay.Chain.{chain_of, IsLinked, chain_scheduled}
use odoo_job_worker.Delay.Errors.{is_err, nested_group_fails}
use odoo_job_worker.Examples.Rows.{row, plain}

abbrev env : Surroundings
env = record { model_exists = λ m. true; company = none; encodes = λ p. true }

abbrev call : List ℕ → Call
call ids = record {
  model = "res.partner";
  ids = ids;
  job_method = some "refresh";
  args = "[]";
  kwargs = "{}";
  priority = none;
  eta = none;
  max_retries = none;
  description = none;
  channel = none;
  identity_key = none;
  timeout = none;
}

call-IsPlain : (ids : List ℕ) → IsPlain env (call ids)
unfolding is_dunder
call-IsPlain ids = record {
  method = "refresh";
  is_method = refl;
  named = refl;
  known = refl;
  callable = refl;
  encoded = refl;
  keyless = refl;
}

abbrev start : Scheduling
start = record { queue = record { jobs = []; next_id = 1; notifications = 0 }; drawn = 0 }

abbrev draw : ℕ → ℕ
draw n = 100 + n

-- Two calls, and one that follows both.
abbrev pair : List Call
pair = call (2 ∷ []) ∷ []

abbrev wave : Delayable
wave = group_before (call (1 ∷ []) ∷ pair) (call [])

abbrev scheduled : Scheduling
scheduled = record {
  queue = record {
    jobs =
        new_job 5 1 none
          (request 5 (record unwired { graph_uuid = some 100 }) "refresh" (call (1 ∷ [])))
        ∷ new_job 5 2 none
            (request 5 (record unwired { graph_uuid = some 100 }) "refresh" (call (2 ∷ [])))
        ∷ new_job 5 3 none (
            request 5
              (record unwired { graph_uuid = some 100; dependency_job_ids = some (1 ∷ 2 ∷ []) })
              "refresh" (call []))
        ∷ [];
    next_id = 4;
    notifications = 3;
  };
  drawn = 1;
}

wave_lem : delay 5 env draw unwired wave start ≡ ok (scheduled, none)
unfolding delay enqueue_call enqueue create_job index_refuses request new_job is_dunder
wave_lem = refl

delay-Enqueued_example :
    Enqueued 5 env (call (1 ∷ []) ∷ call (2 ∷ []) ∷ call [] ∷ []) start.queue scheduled.queue
delay-Enqueued_example = delay-Enqueued 5 env draw unwired wave start scheduled none wave_lem

-- Both jobs of the group succeed, the second one first.
abbrev released : Job
released =
    record (new_job 5 3 none (
      request 5 (record unwired { graph_uuid = some 100; dependency_job_ids = some (1 ∷ 2 ∷ []) })
        "refresh" (call []))) { state = pending; pending_dependency_count = 0; write_date = 9 }

group_before_verdict_example : released.state ≡ pending
unfolding deliver_all deliver release_dependents_of release_row request new_job
group_before_verdict_example =
    group_before_verdict 5 env draw (call (1 ∷ [])) pair (call []) start scheduled 9
      (succeeded 2 ∷ succeeded 1 ∷ []) released (call-IsPlain (1 ∷ []), (call-IsPlain (2 ∷ []), tt))
      (call-IsPlain []) wave_lem (refl, (refl, tt)) refl refl

-- Two calls, chained.
chain_scheduled_example :
    (s : Scheduling) × (rows : List Job) × (delay 5 env draw unwired
        (chain_of (call (1 ∷ []) ∷ pair))
        start
      ≡ ok (s, none))
    × (s.queue.jobs ≡ start.queue.jobs ++ rows)
    × (length rows ≡ length (call (1 ∷ []) ∷ pair))
    × IsLinked false none rows
chain_scheduled_example =
    chain_scheduled 5 env draw unwired (call (1 ∷ []) ∷ pair) start
      (call-IsPlain (1 ∷ []), (call-IsPlain (2 ∷ []), tt)) refl tt refl (omega arith)

-- The same chain as the handler of a failure of job 7.
abbrev handler : Wiring
handler = record {
  graph_uuid = some 50;
  parent_job_id = some 7;
  dependency_job_ids = none;
  run_on_failure = true;
}

abbrev link : ℕ → ℕ → ℕ → Job
link id parent k =
    new_job 5 id none
      (request 5 (record handler { parent_job_id = some parent }) "refresh" (call (k ∷ [])))

abbrev guarded : Job
guarded = row 7 pending plain 0

abbrev before : Scheduling
before = record {
  queue = record { jobs = guarded ∷ []; next_id = 8; notifications = 0 };
  drawn = 0;
}

abbrev handlers : Scheduling
handlers = record {
  queue = record { jobs = guarded ∷ link 8 7 1 ∷ link 9 8 2 ∷ []; next_id = 10; notifications = 2 };
  drawn = 0;
}

abbrev stopped : Job
stopped = record (link 9 8 2) { state = cancelled; cancelled_at = some 9; write_date = 9 }

-- A group with a chain in it.
nested_group_fails_example :
    is_err (
      delay 5 env draw unwired
        (group (cons (single (call []) nil nil) (cons (chain_of pair) nil)) nil nil)
        start)
    ≡ true
nested_group_fails_example =
    nested_group_fails 5 env draw unwired
      (cons (single (call []) nil nil) (cons (chain_of pair) nil)) nil nil start refl
