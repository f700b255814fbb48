-- ===== src/Runner/Supervise.antt =====
-- The passes of the supervisor (`run`), and the heartbeat file that the healthcheck reads
-- (job_worker/cli/heartbeat.py). Wall clock and monotonic clock are read as one.
pub mod Health
use odoo_job_worker.Base.{
  ℕ, ◌+◌, Bool, true, false, not, ◌&&◌, Option, none, some, List, [], ◌∷◌, ltb, leb, ◌==◌,
  if◌then◌else◌, map,
}
use odoo_job_worker.Runner.{
  Settings, Database, Found, discover, check_thread_health, fleet_is_degraded,
}

-- `write_heartbeat`: the file holds the time of its last write; a path that cannot be written leaves
-- it, and the error is swallowed.
abbrev pub write_heartbeat : ℕ → Bool → Option ℕ → Option ℕ
write_heartbeat now writable file = if writable then some now else file

unfoldable pub update_heartbeat : Settings → ℕ → Bool → List Database → Option ℕ → Option ℕ
update_heartbeat s now writable databases file =
    if fleet_is_degraded s now databases then file else write_heartbeat now writable file

unfoldable pub is_fresh : ℕ → ℕ → Option ℕ → Bool
is_fresh max_age now none = false
is_fresh max_age now (some timestamp) = ltb now (timestamp + max_age)

-- What a pass finds: its time, what the worker threads did since the last, whether the stop event is
-- set or the watchdog exits, what discovery finds of each database, and whether the file can be
-- written.
pub record Pass : Type 0 where
  pub at_time : ℕ
  pub meanwhile : List Database → List Database
  pub stopping : Bool
  pub stalled : Bool
  pub found : List Found
  pub writable : Bool

pub record Supervisor : Type 0 where
  pub databases : List Database
  pub last_discovery : ℕ
  pub file : Option ℕ

-- `discover_databases`, with what it finds of each database.
unfoldable pub discover_each : Settings → ℕ → List Found → List Database → List Database
discover_each s now (f ∷ found) (d ∷ databases) =
    discover s now f d ∷ discover_each s now found databases
discover_each s now _ databases = databases

abbrev pub discovery_due : ℕ → ℕ → ℕ → Bool
discovery_due interval now last = not (interval == 0) && leb (last + interval) now

-- One pass, up to the watchdog.
unfoldable pub look_after : Settings → ℕ → Pass → Supervisor → Supervisor
unfolding discover_each
look_after s interval p v =
    let databases = p.meanwhile v.databases in
    if discovery_due interval p.at_time v.last_discovery
    then record {
      databases =
          map (check_thread_health s p.at_time) (discover_each s p.at_time p.found databases);
      last_discovery = p.at_time;
      file = v.file;
    }
    else record v { databases = map (check_thread_health s p.at_time) databases }

unfoldable pub supervise : Settings → ℕ → List Pass → Supervisor → Supervisor
unfolding look_after update_heartbeat
supervise s interval [] v = v
supervise s interval (p ∷ passes) v =
    let seen = look_after s interval p v in
    let beaten = record seen {
      file = update_heartbeat s p.at_time p.writable seen.databases seen.file;
    } in
    let rest = supervise s interval passes beaten in
    if p.stopping then v else if p.stalled then seen else rest
