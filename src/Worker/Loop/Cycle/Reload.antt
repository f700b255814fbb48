-- ===== src/Worker/Loop/Cycle/Reload.antt =====
-- The registry after a pause of the upgrade gate.
use odoo_job_worker.Base.{
  ℕ, ◌≡◌, ◌⊎◌, inl, inr, refl, Bool, true, false, not, ◌&&◌, Option, none, some, List, [], ◌∷◌,
  everywhere, is_some, if◌then◌else◌, Bool-cases,
}
use mathlib.Core.Option.{some-injective}
use odoo_job_worker.Gate.State.{Gate, Answer, check, Checked, state_is, database_error}
use odoo_job_worker.Worker.View.{
  Event, took, looked, saw_closed, View, note_take, note_answer, ask, upgrade_gate_is_open,
  looked_recently, check_registry,
}
use odoo_job_worker.Worker.Loop.Cycle.{QueueWorker, Session, run}
use odoo_job_worker.Worker.Loop.Cycle.Trace.{IsKept, run-rests}

-- Whether the registry was looked at since the gate was last seen closed.
abbrev pub is_current : List Event → Bool
is_current [] = true
is_current (took now k ∷ events) = is_current events
is_current (looked now ∷ events) = true
is_current (saw_closed now ∷ events) = false

-- Whether it was, wherever a job was taken.
unfoldable pub takes_are_current : List Event → Bool
takes_are_current [] = true
takes_are_current (took now k ∷ events) = is_current events && takes_are_current events
takes_are_current (looked now ∷ events) = takes_are_current events
takes_are_current (saw_closed now ∷ events) = takes_are_current events

-- The gate was last seen closed, or the log is current.
Rests : View → Type 0
Rests v =
    (takes_are_current v.log ≡ true)
    × ((is_current v.log ≡ true) ⊎ ((v.was_open ≡ false) × (is_some v.upgrade_gate ≡ true)))

Serves : View → Type 0
Serves v = (takes_are_current v.log ≡ true) × (is_current v.log ≡ true)

noted_takes :
    (now : ℕ) (is_open : Bool) (log : List Event)
    → takes_are_current log ≡ true
    → takes_are_current (if is_open then log else saw_closed now ∷ log) ≡ true
unfolding takes_are_current
noted_takes now true log h = h
noted_takes now false log h = h

shut_answer : (b : Bool) → (some b ≡ none) ⊎ (some b ≡ some false) → b ≡ false
shut_answer true (inl e) = cc
shut_answer true (inr e) = cc
shut_answer false e = refl

noted-Rests :
    (now : ℕ) (p : Gate × Checked) (v : View)
    → Rests v
    → ((note_answer now p v).1 ≡ none) ⊎ ((note_answer now p v).1 ≡ some false)
    → Rests (note_answer now p v).0
unfolding note_answer Rests
noted-Rests now (g, state_is s) v h e =
    (noted_takes now s.open_now v.log h.0, inr (shut_answer s.open_now e, refl))
noted-Rests now (g, database_error) v h e = (h.0, gated h.1)
  where
    gated :
        (is_current v.log ≡ true) ⊎ ((v.was_open ≡ false) × (is_some v.upgrade_gate ≡ true))
        → (is_current v.log ≡ true) ⊎ ((v.was_open ≡ false) × (true ≡ true))
    gated (inl c) = inl c
    gated (inr c) = inr (c.0, refl)

-- A look is due, or the log is current.
looked-Serves :
    (now : ℕ) (v : View)
    → takes_are_current v.log ≡ true
    → (is_current v.log ≡ true) ⊎ (v.last_registry_check ≡ none)
    → Serves (check_registry now v)
unfolding check_registry Serves takes_are_current
looked-Serves now v h e =
    elim (Bool-cases (looked_recently now v.registry_check_interval v.last_registry_check)) [
      | inl recently ↦ rw recently (h, current e recently)
      | inr due ↦ rw due (h, refl)
    ]
  where
    current :
        (is_current v.log ≡ true) ⊎ (v.last_registry_check ≡ none)
        → looked_recently now v.registry_check_interval v.last_registry_check ≡ true
        → is_current v.log ≡ true
    current (inl c) recently = c
    current (inr none_yet) recently = let never : false ≡ true = rw none_yet at recently in cc

-- An answer that opens the gate after it was seen closed makes a look due.
opened_due :
    (now : ℕ) (is_open was_open gated : Bool) (log : List Event) (last : Option ℕ)
    → is_open ≡ true
    → (is_current log ≡ true) ⊎ ((was_open ≡ false) × (gated ≡ true))
    → (is_current (if is_open then log else saw_closed now ∷ log) ≡ true)
      ⊎ ((if is_open && not was_open then none else last) ≡ none)
opened_due now true true gated log last e (inl h) = inl h
opened_due now true true gated log last e (inr (h, _)) = cc
opened_due now true false gated log last e h = inr refl
opened_due now false was_open gated log last e h = cc

begun-Serves :
    (now at_time : ℕ) (p : Gate × Checked) (v : View)
    → Rests v
    → (note_answer now p v).1 ≡ some true
    → Serves (check_registry at_time (note_answer now p v).0)
unfolding note_answer Rests
begun-Serves now at_time (g, state_is s) v h e =
    looked-Serves at_time (note_answer now (g, state_is s) v).0
      (noted_takes now s.open_now v.log h.0)
      (opened_due now s.open_now v.was_open (is_some v.upgrade_gate) v.log v.last_registry_check
        (some-injective _ _ e) h.1)
begun-Serves now at_time (g, database_error) v h e = cc

still_current :
    (now : ℕ) (is_open : Bool) (log : List Event)
    → is_open ≡ true
    → is_current log ≡ true
    → is_current (if is_open then log else saw_closed now ∷ log) ≡ true
still_current now true log e h = h
still_current now false log e h = cc

noted-Serves :
    (now : ℕ) (p : Gate × Checked) (v : View)
    → Serves v
    → (note_answer now p v).1 ≡ some true
    → Serves (note_answer now p v).0
unfolding note_answer Serves
noted-Serves now (g, state_is s) v h e = (
  noted_takes now s.open_now v.log h.0,
  still_current now s.open_now v.log (some-injective _ _ e) h.1,
)
noted-Serves now (g, database_error) v h e = cc

took-Serves : (now k : ℕ) (v : View) → Serves v → Serves (note_take now k v)
unfolding note_take Serves takes_are_current
took-Serves now k v h = (rw (h.1, h.0) refl, h.1)

ask-Rests :
    (now : ℕ) (a : Answer) (gate : Option Gate) (v : View)
    → Rests v
    → ((ask now a gate v).1 ≡ none) ⊎ ((ask now a gate v).1 ≡ some false)
    → Rests (ask now a gate v).0
unfolding ask
ask-Rests now a none v h (inl e) = cc
ask-Rests now a none v h (inr e) = let never : true ≡ false = some-injective _ _ e in cc
ask-Rests now a (some g) v h e = noted-Rests now (check false now a g) v h e

ask-begins :
    (now : ℕ) (a : Answer) (gate : Option Gate) (v : View)
    → v.upgrade_gate ≡ gate
    → Rests v
    → (ask now a gate v).1 ≡ some true
    → Serves (check_registry now (ask now a gate v).0)
unfolding ask Rests
ask-begins now a none v no_gate h e = looked-Serves now v h.0 (ungated h.1)
  where
    ungated :
        (is_current v.log ≡ true) ⊎ ((v.was_open ≡ false) × (is_some v.upgrade_gate ≡ true))
        → (is_current v.log ≡ true) ⊎ (v.last_registry_check ≡ none)
    ungated (inl c) = inl c
    ungated (inr c) = let never : false ≡ true = rw no_gate at c.1 in cc
ask-begins now a (some g) v gated h e = begun-Serves now now (check false now a g) v h e

ask-Serves :
    (now : ℕ) (a : Answer) (gate : Option Gate) (v : View)
    → Serves v
    → (ask now a gate v).1 ≡ some true
    → Serves (ask now a gate v).0
unfolding ask
ask-Serves now a none v h e = h
ask-Serves now a (some g) v h e = noted-Serves now (check false now a g) v h e

serves_rests : (v : View) → Serves v → Rests v
unfolding Rests Serves
serves_rests v h = (h.0, inl h.1)

fresh-Rests : (v : View) → v.log ≡ [] → Rests v
unfolding Rests takes_are_current
fresh-Rests v fresh = (rw fresh refl, inl (rw fresh refl))

current-IsKept : IsKept (λ now a. Unit) Rests Serves
unfolding upgrade_gate_is_open
current-IsKept = record {
  rest = serves_rests;
  ask = (λ now a v given h. ask-Rests now a v.upgrade_gate v h);
  begin = (λ now a v given h. ask-begins now a v.upgrade_gate v refl h);
  go_on = (λ now a v given h e. (
    ask-Serves now a v.upgrade_gate v h e,
    (λ k.
        took-Serves now k (upgrade_gate_is_open now a v).0 (ask-Serves now a v.upgrade_gate v h e)),
  ));
}

-- Whatever a worker meets in its sessions, its cycles and the rounds of `process_jobs`, database
-- errors included: after its upgrade gate was seen closed, it looks at the registry for changes before
-- it takes another job.
pub run_looks_first :
    (sessions : List Session) (w : QueueWorker)
    → w.pool.view.log ≡ []
    → takes_are_current (run sessions w).pool.view.log ≡ true
unfolding Rests
run_looks_first sessions w fresh =
    (run-rests current-IsKept sessions w
      (everywhere _ (λ s. everywhere _ (λ c. (tt, everywhere _ (λ r. tt) c.rounds)) s.cycles)
        sessions)
      (fresh-Rests w.pool.view fresh)).0
