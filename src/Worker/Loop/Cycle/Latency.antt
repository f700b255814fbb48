-- ===== src/Worker/Loop/Cycle/Latency.antt =====
-- How soon a worker stops taking jobs once an upgrade has started.
use odoo_job_worker.Base.{
  ℕ, ◌+◌, ◌<◌, ◌≡◌, ◌∙◌, inl, inr, refl, ap, Bool, true, false, some, List, [], ◌∷◌, All,
  if◌then◌else◌, Bool-cases,
}
use mathlib.Core.Option.{some-injective}
use odoo_job_worker.Gate.State.{Gate, Answer, check, Checked, state_is, database_error, lets_pass}
use odoo_job_worker.Gate.State.Latency.{
  ShutFrom, IsTimely, asked_before, check-IsTimely, check-early, asked-IsTimely,
}
use odoo_job_worker.Worker.View.{
  Event, took, looked, saw_closed, View, note_take, note_answer, ask, upgrade_gate_is_open,
  looked_recently, check_registry,
}
use odoo_job_worker.Worker.Loop.Cycle.{QueueWorker, Session, run}
use odoo_job_worker.Worker.Loop.Cycle.Trace.{IsKept, run-rests}

-- A job is taken, or the registry looked at, only before the limit.
abbrev pub IsBefore : ℕ → Event → Type 0
IsBefore limit (took now k) = now < limit
IsBefore limit (looked now) = now < limit
IsBefore limit (saw_closed now) = Unit

module _ (start interval : ℕ) where
  record Timed (v : View) : Type 0 where
    gate : Gate
    has_gate : v.upgrade_gate ≡ some gate
    timely : IsTimely start interval gate
    early : All (IsBefore (start + interval)) v.log

  looked-early :
      (now : ℕ) (v : View)
      → now < start + interval
      → All (IsBefore (start + interval)) v.log
      → All (IsBefore (start + interval)) (check_registry now v).log
  unfolding check_registry
  looked-early now v soon h =
      elim (Bool-cases (looked_recently now v.registry_check_interval v.last_registry_check)) [
        | inl recently ↦ rw recently h
        | inr due ↦ rw due (soon, h)
      ]

  looked-gate : (now : ℕ) (v : View) → (check_registry now v).upgrade_gate ≡ v.upgrade_gate
  unfolding check_registry
  looked-gate now v =
      elim (Bool-cases (looked_recently now v.registry_check_interval v.last_registry_check)) [
        | inl recently ↦ rw recently refl
        | inr due ↦ rw due refl
      ]

  looked-Timed :
      (now : ℕ) (v : View) → now < start + interval → Timed v → Timed (check_registry now v)
  looked-Timed now v soon h = record {
    gate = h.gate;
    has_gate = looked-gate now v ∙ h.has_gate;
    timely = h.timely;
    early = looked-early now v soon h.early;
  }

  noted_early :
      (now : ℕ) (is_open : Bool) (log : List Event)
      → All (IsBefore (start + interval)) log
      → All (IsBefore (start + interval)) (if is_open then log else saw_closed now ∷ log)
  noted_early now true log h = h
  noted_early now false log h = (tt, h)

  noted-Timed :
      (now : ℕ) (p : Gate × Checked) (v : View)
      → IsTimely start interval p.0
      → Timed v
      → Timed (note_answer now p v).0
  unfolding note_answer
  noted-Timed now (g, state_is s) v timely h = record {
    gate = g;
    has_gate = refl;
    timely = timely;
    early = noted_early now s.open_now v.log h.early;
  }
  noted-Timed now (g, database_error) v timely h = record {
    gate = g;
    has_gate = refl;
    timely = timely;
    early = h.early;
  }

  took-Timed : (now k : ℕ) (v : View) → now < start + interval → Timed v → Timed (note_take now k v)
  unfolding note_take
  took-Timed now k v soon h = record {
    gate = h.gate;
    has_gate = h.has_gate;
    timely = h.timely;
    early = (soon, h.early);
  }

  asked :
      (now : ℕ) (a : Answer) (v : View) (g : Gate)
      → v.upgrade_gate ≡ some g
      → upgrade_gate_is_open now a v ≡ note_answer now (check false now a g) v
  unfolding upgrade_gate_is_open ask
  asked now a v g gated = ap (λ o. ask now a o v) gated

  ask-Timed :
      (now : ℕ) (a : Answer) (v : View)
      → ShutFrom start now a
      → Timed v
      → Timed (upgrade_gate_is_open now a v).0
  ask-Timed now a v shut h = rw (asked now a v h.gate h.has_gate) (
      noted-Timed now (check false now a h.gate) v
        (check-IsTimely start interval now a h.gate shut h.timely) h)

  noted_passes :
      (now : ℕ) (p : Gate × Checked) (v : View)
      → (note_answer now p v).1 ≡ some true
      → lets_pass p.1 ≡ true
  unfolding note_answer
  noted_passes now (g, state_is s) v e = some-injective _ _ e
  noted_passes now (g, database_error) v e = cc

  ask-early :
      (now : ℕ) (a : Answer) (v : View)
      → ShutFrom start now a
      → Timed v
      → (upgrade_gate_is_open now a v).1 ≡ some true
      → now < start + interval
  ask-early now a v shut h e =
      check-early start interval now a h.gate shut h.timely
        (noted_passes now (check false now a h.gate) v (rw (asked now a v h.gate h.has_gate) at e))

  early-IsKept : IsKept (ShutFrom start) Timed Timed
  early-IsKept = record {
    rest = (λ v h. h);
    ask = (λ now a v shut h e. ask-Timed now a v shut h);
    begin = (λ now a v shut h e.
        looked-Timed now (upgrade_gate_is_open now a v).0 (ask-early now a v shut h e)
          (ask-Timed now a v shut h));
    go_on = (λ now a v shut h e. (
      ask-Timed now a v shut h,
      (λ k.
          took-Timed now k (upgrade_gate_is_open now a v).0 (ask-early now a v shut h e)
            (ask-Timed now a v shut h)),
    ));
  }

-- The probes of every session do not open the gate from `start` on.
abbrev pub UpgradeFrom : ℕ → List Session → Type 0
UpgradeFrom start sessions =
    All
      (λ s.
        All
          (λ c.
            ShutFrom start c.at_time c.answer
            × All (λ r. ShutFrom start r.at_time r.answer) c.rounds)
          s.cycles)
      sessions

-- If the upgrade gate of a worker is on and the worker, which has recorded no event yet, is handed it
-- as last asked before `start` or never, and from `start` on no probe of it finds the database free,
-- then the worker takes no job and does not look at the registry from `start + interval` on,
-- whatever it meets otherwise, database errors included.
pub run_stops_taking :
    (start : ℕ) (sessions : List Session) (w : QueueWorker) (gate : Gate)
    → w.pool.view.upgrade_gate ≡ some gate
    → gate.enabled ≡ true
    → asked_before start gate.checked_at ≡ true
    → w.pool.view.log ≡ []
    → UpgradeFrom start sessions
    → All (IsBefore (start + gate.interval)) (run sessions w).pool.view.log
run_stops_taking start sessions w gate gated on before fresh upgrade =
    (run-rests (early-IsKept start gate.interval) sessions w upgrade (record {
      gate = gate;
      has_gate = gated;
      timely = asked-IsTimely start gate on before;
      early = rw fresh tt;
    })).early
