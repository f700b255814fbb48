-- ===== src/Gate/State.antt =====
-- `UpgradeGate`: the cached view of the probe, and how long the gate has been closed.
pub mod Latency
use odoo_job_worker.Base.{
  ℕ, ◌+◌, ◌<◌, ◌≡◌, refl, Bool, true, false, not, ◌&&◌, Option, none, some, List, [], ◌∷◌, leb, ltb,
  ◌==◌, if◌then◌else◌, is_some, arith,
}
use odoo_job_worker.Gate.Probe.{GateState, Reason, probe_blocked, open_state}

-- The settings and the attributes. The set of missing modules that were warned of only paces a log
-- line and is left out.
pub record Gate : Type 0 where
  pub enabled : Bool
  pub interval : ℕ
  pub unhealthy_after : ℕ
  pub reminder_interval : ℕ
  pub state : GateState
  pub checked_at : Option ℕ
  pub closed_since : Option ℕ
  pub last_reminder_at : Option ℕ
  pub overdue_logged : Bool

-- `UpgradeGate(…)`
abbrev pub new_gate : Bool → ℕ → ℕ → ℕ → Gate
new_gate enabled interval unhealthy_after reminder_interval = record {
  enabled = enabled;
  interval = interval;
  unhealthy_after = unhealthy_after;
  reminder_interval = reminder_interval;
  state = open_state;
  checked_at = none;
  closed_since = none;
  last_reminder_at = none;
  overdue_logged = false;
}

-- How the connection of `_probe_once` answers: the state that `probe` returned, a lock or statement
-- timeout, or another database error.
pub data Answer : Type 0 where
  probed : GateState → Answer
  blocked : Answer
  broken : Answer

-- `seconds_closed() >= unhealthy_after_seconds`, which is not 0.
abbrev pub overdue_since : ℕ → ℕ → Option ℕ → Bool
overdue_since now limit none = false
overdue_since now limit (some t) = not (limit == 0) && leb (t + limit) now

unfoldable pub is_overdue : ℕ → Gate → Bool
is_overdue now g = overdue_since now g.unhealthy_after g.closed_since

-- `now - last_reminder_at >= still_paused_log_interval_seconds`
abbrev pub reminder_due : ℕ → ℕ → Option ℕ → Bool
reminder_due now every none = false
reminder_due now every (some t) = leb (t + every) now

-- `_record` with an open state.
abbrev record_open : GateState → Gate → Gate
record_open s g = record g {
  state = s;
  closed_since = none;
  last_reminder_at = none;
  overdue_logged = false;
}

-- `_record` after the first assignments, with a closed state. A change of the reason is only logged.
abbrev same_reason : Option Reason → Option Reason → Bool
same_reason (some Reason.modules_in_transition) (some Reason.modules_in_transition) = true
same_reason (some Reason.partial_update) (some Reason.partial_update) = true
same_reason (some Reason.version_skew) (some Reason.version_skew) = true
same_reason (some probe_blocked) (some probe_blocked) = true
same_reason none none = true
same_reason _ _ = false

record_closed : ℕ → GateState → Gate → Gate
unfolding is_overdue
record_closed now s g =
    if g.state.open_now
    then record g { state = s; closed_since = some now; last_reminder_at = some now }
    else (let stays = record g { state = s } in
        if not (same_reason g.state.reason s.reason)
        then stays
        else if is_overdue now g && not g.overdue_logged
        then record stays { overdue_logged = true }
        else if reminder_due now g.reminder_interval g.last_reminder_at
        then record stays { last_reminder_at = some now }
        else stays)

unfoldable pub record_state : ℕ → GateState → Gate → Gate
unfolding record_closed
record_state now s g = if s.open_now then record_open s g else record_closed now s g

-- `now - checked_at < interval_seconds`
abbrev pub is_cached : ℕ → ℕ → Option ℕ → Bool
is_cached now interval none = false
is_cached now interval (some t) = ltb now (t + interval)

-- The result of `check`, or the error that it passes on.
pub data Checked : Type 0 where
  state_is : GateState → Checked
  database_error : Checked

abbrev blocked_state : GateState
blocked_state = record { open_now = false; reason = some probe_blocked; details = []; missing = [] }

abbrev note : ℕ → GateState → Gate → Gate × Checked
note now s g = (record_state now s (record g { checked_at = some now }), state_is s)

abbrev probe_once : ℕ → Answer → Gate → Gate × Checked
probe_once now (probed s) g = note now s g
probe_once now blocked g = note now blocked_state g
probe_once now broken g = (g, database_error)

unfoldable pub check : Bool → ℕ → Answer → Gate → Gate × Checked
unfolding record_state
check force now answer g =
    if not g.enabled
    then (g, state_is open_state)
    else if not force && is_cached now g.interval g.checked_at
    then (g, state_is g.state)
    else probe_once now answer g

-- What a caller may do: `is_open()`.
abbrev pub lets_pass : Checked → Bool
lets_pass (state_is s) = s.open_now
lets_pass database_error = false

-- The gate times a pause exactly while it is closed.
pub record IsConsistent (g : Gate) : Type 0 where
  pub timed : is_some g.closed_since ≡ not g.state.open_now

check-IsConsistent :
    (force : Bool) (now : ℕ) (answer : Answer) (g : Gate)
    → IsConsistent g
    → IsConsistent (check force now answer g).0
unfolding check
check-IsConsistent force now (probed s) g h = ground arith
check-IsConsistent force now blocked g h = ground arith
check-IsConsistent force now broken g h = ground arith

-- The calls of `check` on a gate, oldest first: when, and what the connection would answer.
pub record Call : Type 0 where
  pub force : Bool
  pub at_time : ℕ
  pub answer : Answer

unfoldable pub check_all : List Call → Gate → Gate
check_all [] g = g
check_all (c ∷ calls) g = check_all calls (check c.force c.at_time c.answer g).0

calls-IsConsistent :
    (calls : List Call) (g : Gate) → IsConsistent g → IsConsistent (check_all calls g)
unfolding check_all
calls-IsConsistent [] g h = h
calls-IsConsistent (c ∷ calls) g h =
    calls-IsConsistent calls (check c.force c.at_time c.answer g).0
      (check-IsConsistent c.force c.at_time c.answer g h)

-- Whatever the calls of `check` and whatever the connection answers to them, a gate that started
-- open records the start of a pause exactly while it is closed.
pub check_all-IsConsistent :
    (calls : List Call) (enabled : Bool) (interval unhealthy reminder : ℕ)
    → let g = check_all calls (new_gate enabled interval unhealthy reminder) in
      is_some g.closed_since ≡ not g.state.open_now
check_all-IsConsistent calls enabled interval unhealthy reminder =
    (calls-IsConsistent calls (new_gate enabled interval unhealthy reminder)
      (record { timed = refl })).timed

-- What a poll of an enabled gate comes to, when it is not answered from the cache: a timeout of the
-- probe closes the gate, another database error passes on and leaves the gate as it was, and after
-- any answer that is not an error the next poll within the interval gives the same state without
-- asking.
pub check_then_cached :
    (now later : ℕ) (s : GateState) (next : Answer) (g : Gate)
    → g.enabled ≡ true
    → is_cached now g.interval g.checked_at ≡ false
    → later < now + g.interval
    → let after = (check false now (probed s) g).0 in
      (check false later next after ≡ (after, state_is s))
      × (lets_pass (check false now blocked g).1 ≡ false)
      × (check false now broken g ≡ (g, database_error))
unfolding check record_state record_closed
check_then_cached now later s next g on stale soon = ground arith
