-- ===== src/Worker/View.antt =====
-- What a worker holds on its upgrade gate and its registry: `_upgrade_gate_is_open` and
-- `_check_registry`, with a log of what the loop did.
use odoo_job_worker.Base.{
  ℕ, ◌+◌, Bool, true, false, not, ◌&&◌, Option, none, some, List, ◌∷◌, ltb, if◌then◌else◌,
}
use odoo_job_worker.Gate.State.{Gate, Answer, check, Checked, state_is, database_error}

-- A job is taken, the registry is asked for changes, or the gate is seen closed, each with its time.
pub data Event : Type 0 where
  took : (at_time k : ℕ) → Event
  looked : (at_time : ℕ) → Event
  saw_closed : (at_time : ℕ) → Event

-- `upgrade_gate`, `_upgrade_gate_was_open`, `_last_registry_check` (`none`: minus infinity),
-- `registry_check_interval`, and the log, newest first.
pub record View : Type 0 where
  pub upgrade_gate : Option Gate
  pub was_open : Bool
  pub last_registry_check : Option ℕ
  pub registry_check_interval : ℕ
  pub log : List Event

unfoldable pub note_take : ℕ → ℕ → View → View
note_take now k v = record v { log = took now k ∷ v.log }

-- What `is_open()` gave is noted; where it raised, nothing is but what the gate itself keeps.
unfoldable pub note_answer : ℕ → Gate × Checked → View → View × Option Bool
note_answer now (g, state_is s) v = (
  record v {
    upgrade_gate = some g;
    was_open = s.open_now;
    last_registry_check = if s.open_now && not v.was_open then none else v.last_registry_check;
    log = if s.open_now then v.log else saw_closed now ∷ v.log;
  },
  some s.open_now,
)
note_answer now (g, database_error) v = (record v { upgrade_gate = some g }, none)

unfoldable pub ask : ℕ → Answer → Option Gate → View → View × Option Bool
unfolding note_answer
ask now answer none v = (v, some true)
ask now answer (some g) v = note_answer now (check false now answer g) v

-- `none` where the probe raises a database error.
unfoldable pub upgrade_gate_is_open : ℕ → Answer → View → View × Option Bool
unfolding ask
upgrade_gate_is_open now answer v = ask now answer v.upgrade_gate v

-- `now - _last_registry_check < registry_check_interval`
abbrev pub looked_recently : ℕ → ℕ → Option ℕ → Bool
looked_recently now interval none = false
looked_recently now interval (some t) = ltb now (t + interval)

-- An error of the registry's own check is swallowed, and the next is due after the interval all the
-- same.
unfoldable pub check_registry : ℕ → View → View
check_registry now v =
    if looked_recently now v.registry_check_interval v.last_registry_check
    then v
    else record v { last_registry_check = some now; log = looked now ∷ v.log }
