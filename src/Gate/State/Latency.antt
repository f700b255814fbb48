-- ===== src/Gate/State/Latency.antt =====
-- How long the cached view may lag behind a probe that closes the gate.
use odoo_job_worker.Base.{
  ℕ, ◌+◌, ◌<◌, ◌≡◌, ◌∙◌, refl, ap, Bool, true, false, not, ◌&&◌, Option, none, some, leb, ltb,
  if◌then◌else◌, arith,
}
use odoo_job_worker.Gate.Probe.{GateState, open_state}
use odoo_job_worker.Gate.State.{
  Gate, Answer, probed, blocked, broken, record_state, record_closed, is_cached, Checked, state_is,
  check, lets_pass, probe_once, blocked_state,
}

-- Whether a probe that is answered so opens the gate.
abbrev pub answers_open : Answer → Bool
answers_open (probed s) = s.open_now
answers_open blocked = false
answers_open broken = false

-- From `start` on the probes do not open the gate.
abbrev pub ShutFrom : ℕ → ℕ → Answer → Type 0
ShutFrom start now a = leb start now ≡ true → answers_open a ≡ false

-- The last probe, if there was one, was before `start`.
abbrev pub asked_before : ℕ → Option ℕ → Bool
asked_before start none = true
asked_before start (some t) = ltb t start

-- A gate that stands open was last asked before `start`.
pub record IsTimely (start interval : ℕ) (g : Gate) : Type 0 where
  pub on : g.enabled ≡ true
  pub every : g.interval ≡ interval
  pub opened : g.state.open_now ≡ true → asked_before start g.checked_at ≡ true

-- A gate that was last asked before `start`, if ever.
pub asked-IsTimely :
    (start : ℕ) (g : Gate)
    → g.enabled ≡ true
    → asked_before start g.checked_at ≡ true
    → IsTimely start g.interval g
asked-IsTimely start g on before = record { on = on; every = refl; opened = (λ e. before) }

recorded_state :
    (now : ℕ) (s : GateState) (g : Gate)
    → (((record_state now s g).state ≡ s) × ((record_state now s g).checked_at ≡ g.checked_at))
      × (((record_state now s g).enabled ≡ g.enabled)
          × ((record_state now s g).interval ≡ g.interval))
unfolding record_state record_closed
recorded_state now s g = ground arith

module _ (start interval now : ℕ) where
  noted-IsTimely :
      (s : GateState) (g : Gate)
      → (leb start now ≡ true → s.open_now ≡ false)
      → IsTimely start interval g
      → IsTimely start interval (record_state now s (record g { checked_at = some now }))
  noted-IsTimely s g shut h =
      let ((st, at), (on, every)) = recorded_state now s (record g { checked_at = some now }) in
      record {
        on = on ∙ h.on;
        every = every ∙ h.every;
        opened = (λ is_open. rw at (open_early (s.open_now) (rw st at is_open) shut));
      }
    where
      open_early : (b : Bool) → b ≡ true → (leb start now ≡ true → b ≡ false) → ltb now start ≡ true
      open_early b e shut = ground arith

  polled : Answer → Gate → Bool → Gate × Checked
  polled a g cached = if cached then (g, state_is g.state) else probe_once now a g

  check-polled :
      (a : Answer) (g : Gate)
      → g.enabled ≡ true
      → check false now a g ≡ polled a g (is_cached now g.interval g.checked_at)
  unfolding check polled
  check-polled a g on =
      ap
        (λ (b : Bool).
          if not b
          then (g, state_is open_state)
          else if not false && is_cached now g.interval g.checked_at
          then (g, state_is g.state)
          else probe_once now a g)
        on

  polled-IsTimely :
      (a : Answer) (g : Gate) (cached : Bool)
      → ShutFrom start now a
      → IsTimely start interval g
      → IsTimely start interval (polled a g cached).0
  unfolding polled
  polled-IsTimely a g true shut h = h
  polled-IsTimely (probed s) g false shut h = noted-IsTimely s g shut h
  polled-IsTimely blocked g false shut h = noted-IsTimely blocked_state g (λ e. refl) h
  polled-IsTimely broken g false shut h = h

  pub check-IsTimely :
      (a : Answer) (g : Gate)
      → ShutFrom start now a
      → IsTimely start interval g
      → IsTimely start interval (check false now a g).0
  check-IsTimely a g shut h =
      rw (check-polled a g h.on)
        (polled-IsTimely a g (is_cached now g.interval g.checked_at) shut h)

  cached_early :
      (every : ℕ) (last : Option ℕ)
      → every ≡ interval
      → asked_before start last ≡ true
      → is_cached now every last ≡ true
      → now < start + interval
  cached_early every none e before cached = ground arith
  cached_early every (some t) e before cached = ground arith

  polled_early :
      (a : Answer) (g : Gate) (cached : Bool)
      → ShutFrom start now a
      → IsTimely start interval g
      → is_cached now g.interval g.checked_at ≡ cached
      → lets_pass (polled a g cached).1 ≡ true
      → now < start + interval
  unfolding polled
  polled_early a g true shut h e passes =
      cached_early g.interval g.checked_at h.every (h.opened passes) e
  polled_early (probed s) g false shut h e passes = ground arith
  polled_early blocked g false shut h e passes = ground arith
  polled_early broken g false shut h e passes = ground arith

  pub check-early :
      (a : Answer) (g : Gate)
      → ShutFrom start now a
      → IsTimely start interval g
      → lets_pass (check false now a g).1 ≡ true
      → now < start + interval
  check-early a g shut h passes =
      polled_early a g (is_cached now g.interval g.checked_at) shut h refl
        (rw (check-polled a g h.on) at passes)
