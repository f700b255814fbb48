-- ===== src/Worker/Loop/Cycle.antt =====
-- The cycles of `_listen_and_serve`, and the sessions of `run`.
pub mod Trace
pub mod Reload
pub mod Latency
use odoo_job_worker.Base.{ℕ, Bool, true, false, Option, none, some, List, [], ◌∷◌, if◌then◌else◌}
use odoo_job_worker.Gate.State.{Answer}
use odoo_job_worker.Worker.View.{View, upgrade_gate_is_open, check_registry}
use odoo_job_worker.Worker.Loop.{
  Pool, Round, Left, raised, unfinished, process_jobs, Recovering, complete_cycle, back_off,
}

-- What `update_heartbeats` comes to in a cycle: an error of `PG_TRANSIENT_CONTROL_PLANE_ERRORS` is
-- skipped, another goes to `run`.
pub data Beat : Type 0 where
  beaten : Beat
  skipped : Beat
  beat_fails : Beat

-- The time of a cycle and what the gate's connection would answer then, the rounds of
-- `process_jobs`, should it get there, and the heartbeats. The wait for a notification changes
-- nothing.
pub record Cycle : Type 0 where
  pub at_time : ℕ
  pub answer : Answer
  pub rounds : List Round
  pub beat : Beat

pub record QueueWorker : Type 0 where
  pub concurrency : ℕ
  pub pool : Pool
  pub recovering : Recovering

-- A cycle ends, breaks off with a database error, or runs still when the rounds end.
pub data Ended : Type 0 where
  completed : Ended
  broke_off : Ended
  goes_on : Ended

-- The start of a cycle: `last_progress = now`
abbrev begin_cycle : ℕ → Pool → Pool
begin_cycle now p = record p { last_progress = now }

after_beat : Beat → QueueWorker → QueueWorker × Ended
after_beat beaten w = (record w { recovering = complete_cycle w.recovering }, completed)
after_beat skipped w = (record w { recovering = complete_cycle w.recovering }, completed)
after_beat beat_fails w = (w, broke_off)

after_jobs : Beat → Left → QueueWorker → QueueWorker × Ended
unfolding after_beat
after_jobs beat raised w = (w, broke_off)
after_jobs beat unfinished w = (w, goes_on)
after_jobs beat _ w = after_beat beat w

-- The rest of a cycle, from the view after the gate was asked and its answer.
after_gate : Cycle → View × Option Bool → QueueWorker → QueueWorker × Ended
unfolding after_jobs
after_gate c (view, none) w = (record w { pool = record w.pool { view = view } }, broke_off)
after_gate c (view, some false) w =
    after_beat c.beat (record w { pool = record w.pool { view = view } })
after_gate c (view, some true) w =
    let ready = record w.pool { view = check_registry c.at_time view } in
    let (pool, left) = process_jobs w.concurrency c.rounds ready in
    after_jobs c.beat left (record w { pool = pool })

-- One cycle of `_listen_and_serve`.
unfoldable pub serve_cycle : Cycle → QueueWorker → QueueWorker × Ended
unfolding after_gate
serve_cycle c w =
    let begun = begin_cycle c.at_time w.pool in
    after_gate c (upgrade_gate_is_open c.at_time c.answer begun.view) (record w { pool = begun })

-- Only after a completed cycle there is another.
abbrev go_round : Ended → QueueWorker → QueueWorker × Ended → QueueWorker × Ended
go_round completed next rest = rest
go_round broke_off next rest = (next, broke_off)
go_round goes_on next rest = (next, goes_on)

-- Where the cycles end, the worker is asked to stop.
unfoldable pub listen_and_serve : List Cycle → QueueWorker → QueueWorker × Ended
unfolding serve_cycle
listen_and_serve [] w = (w, completed)
listen_and_serve (c ∷ cycles) w =
    let (next, ended) = serve_cycle c w in go_round ended next (listen_and_serve cycles next)

-- A session of `run`: whether `LISTEN` succeeds, the cycles, and the time should it break off.
pub record Session : Type 0 where
  pub listens : Bool
  pub cycles : List Cycle
  pub failed_at : ℕ

-- `_back_off_after_database_error` writes `last_progress`.
abbrev pub recover : ℕ → QueueWorker → QueueWorker
recover now w = record w {
  pool = record w.pool { last_progress = now };
  recovering = (back_off now w.recovering).0;
}

-- Only after a session that broke off there is another.
abbrev reconnect : Ended → QueueWorker → QueueWorker → QueueWorker
reconnect broke_off after rest = rest
reconnect completed after rest = after
reconnect goes_on after rest = after

unfoldable pub run : List Session → QueueWorker → QueueWorker
unfolding listen_and_serve
run [] w = w
run (s ∷ sessions) w =
    let (after, ended) = (if s.listens then listen_and_serve s.cycles w else (w, broke_off)) in
    reconnect ended after (run sessions (recover s.failed_at after))
