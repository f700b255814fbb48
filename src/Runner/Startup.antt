-- ===== src/Runner/Startup.antt =====
-- The start of a worker thread: `_load_registry`, and the wait for the upgrade gate before it.
pub mod Pause
pub mod Since
use odoo_job_worker.Base.{
  ℕ, ◌+◌, ◌-◌, ◌*◌, ◌^◌, min, Bool, true, false, Option, none, some, List, [], ◌∷◌, if◌then◌else◌,
}
use odoo_job_worker.Gate.State.{Gate, Answer, check, Checked, state_is, database_error}
use odoo_job_worker.Worker.Loop.{or_now}

-- A round of `_wait_for_upgrade_gate`.
pub record Poll : Type 0 where
  pub stopping : Bool
  pub at_time : ℕ
  pub answer : Answer

-- The gate is open, as of a time; the wait is told to stop; the probe raises a database error; or it
-- waits still.
pub data Waited : Type 0 where
  opened : (at_time : ℕ) → Waited
  told_to_stop : Waited
  probe_raises : Waited
  waits : Waited

abbrev after_poll : ℕ → Gate → Checked → Gate × Waited → Gate × Waited
after_poll now g database_error rest = (g, probe_raises)
after_poll now g (state_is s) rest = if s.open_now then (g, opened now) else rest

unfoldable pub wait_for_upgrade_gate : List Poll → Gate → Gate × Waited
wait_for_upgrade_gate [] g = (g, waits)
wait_for_upgrade_gate (p ∷ polls) g =
    let (next, checked) = check false p.at_time p.answer g in
    let rest = wait_for_upgrade_gate polls next in
    if p.stopping then (g, told_to_stop) else after_poll p.at_time next checked rest

-- How a registry load ends: well, with a database error, or with another exception.
pub data Load : Type 0 where
  loads : Load
  load_fails : Load
  load_breaks : Load

-- A round of the loop: whether it is to stop, the wait, the load, and the time of a failure.
pub record Attempt : Type 0 where
  pub stopping : Bool
  pub polls : List Poll
  pub load : Load
  pub failed_at : ℕ

-- The gate of the thread, `_registry_load_retry_since`, `attempt`, the delays, and the times at which
-- a load began.
pub record Starting : Type 0 where
  pub gate : Gate
  pub retrying_since : Option ℕ
  pub attempt : ℕ
  pub delays : List ℕ
  pub loading_at : List ℕ

-- The thread has its registry, is told to stop before that, dies of the exception, or goes on.
pub data Started : Type 0 where
  ready : Started
  gives_up : Started
  crashes : Started
  goes_on : Started

-- `registry_load_backoff_seconds` and its cap
pub record Pacing : Type 0 where
  pub backoff_seconds : ℕ
  pub backoff_cap_seconds : ℕ

unfoldable pub load_failed : Pacing → ℕ → Starting → Starting
load_failed p now s = record {
  gate = s.gate;
  retrying_since = or_now now s.retrying_since;
  attempt = s.attempt + 1;
  delays = min (p.backoff_seconds * 2 ^ (s.attempt + 1 - 1)) p.backoff_cap_seconds ∷ s.delays;
  loading_at = s.loading_at;
}

-- The load after the wait, and the exceptions of both: another round follows on `goes_on`.
try_load : Pacing → Attempt → Waited → Starting → Starting × Started
unfolding load_failed
try_load p a told_to_stop s = (s, gives_up)
try_load p a waits s = (s, goes_on)
try_load p a probe_raises s = (load_failed p a.failed_at s, goes_on)
try_load p a (opened now) s =
    let begun = record s { loading_at = now ∷ s.loading_at } in
    elim a.load [
      | loads ↦ (record begun { retrying_since = none }, ready)
      | load_fails ↦ (load_failed p a.failed_at begun, goes_on)
      | load_breaks ↦ (begun, crashes)
    ]

-- A wait that goes on where the polls end leaves the loop there: no further round follows.
go_round : Waited → Starting × Started → Starting × Started → Starting × Started
go_round waits tried rest = tried
go_round _ (s, goes_on) rest = rest
go_round _ tried rest = tried

unfoldable pub load_registry : Pacing → List Attempt → Starting → Starting × Started
unfolding wait_for_upgrade_gate try_load go_round
load_registry p [] s = (s, gives_up)
load_registry p (a ∷ attempts) s =
    let (gate, waited) = wait_for_upgrade_gate a.polls s.gate in
    let tried = try_load p a waited (record s { gate = gate }) in
    let rest = load_registry p attempts tried.0 in
    if a.stopping then (s, gives_up) else go_round waited tried rest
