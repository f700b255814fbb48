-- ===== src/Runner/Startup/Pause.antt =====
-- A registry load during an upgrade.
use odoo_job_worker.Base.{
  ℕ, ◌+◌, ◌<◌, ◌≡◌, true, false, none, List, [], ◌∷◌, All, Bool-cases, inl, inr,
}
use odoo_job_worker.Gate.State.{Gate, check, Checked, state_is, database_error, lets_pass}
use odoo_job_worker.Gate.State.Latency.{
  ShutFrom, IsTimely, check-IsTimely, check-early, asked-IsTimely, asked_before,
}
use odoo_job_worker.Runner.Startup.{
  Poll, Waited, opened, told_to_stop, probe_raises, waits, after_poll, wait_for_upgrade_gate, Load,
  loads, load_fails, load_breaks, Attempt, Starting, Started, ready, gives_up, crashes, goes_on,
  Pacing, load_failed, try_load, go_round, load_registry,
}

module _ (start interval : ℕ) where
  abbrev pub IsShut : Poll → Type 0
  IsShut p = ShutFrom start p.at_time p.answer

  -- A wait that ends with an open gate ends before the limit.
  abbrev OpensEarly : Waited → Type 0
  OpensEarly (opened now) = now < start + interval
  OpensEarly _ = Unit

  abbrev EndsEarly : Gate × Waited → Type 0
  EndsEarly (g, w) = IsTimely start interval g × OpensEarly w

  after_poll-EndsEarly :
      (now : ℕ) (g : Gate) (c : Checked) (rest : Gate × Waited)
      → (lets_pass c ≡ true → now < start + interval)
      → IsTimely start interval g
      → EndsEarly rest
      → EndsEarly (after_poll now g c rest)
  after_poll-EndsEarly now g database_error rest early timely h = (timely, tt)
  after_poll-EndsEarly now g (state_is s) rest early timely h = elim (Bool-cases s.open_now) [
    | inl wide ↦ rw wide (timely, early wide)
    | inr shut ↦ rw shut h
  ]

  wait-EndsEarly :
      (polls : List Poll) (g : Gate)
      → All IsShut polls
      → IsTimely start interval g
      → EndsEarly (wait_for_upgrade_gate polls g)
  unfolding wait_for_upgrade_gate
  wait-EndsEarly [] g given h = (h, tt)
  wait-EndsEarly (p ∷ polls) g given h = elim (Bool-cases p.stopping) [
    | inl stop ↦ rw stop (h, tt)
    | inr on ↦
        let (next, checked) = check false p.at_time p.answer g in
        let timely = check-IsTimely start interval p.at_time p.answer g given.0 h in
        rw on (
          after_poll-EndsEarly p.at_time (check false p.at_time p.answer g).0
            (check false p.at_time p.answer g).1
            (wait_for_upgrade_gate polls (check false p.at_time p.answer g).0)
            (check-early start interval p.at_time p.answer g given.0 h) timely
            (wait-EndsEarly polls (check false p.at_time p.answer g).0 given.1 timely))
  ]

  -- No load began from the limit on, and none will.
  record LoadsEarly (s : Starting) : Type 0 where
    timely : IsTimely start interval s.gate
    early : All (λ now. now < start + interval) s.loading_at

  try_load-LoadsEarly :
      (p : Pacing) (a : Attempt) (w : Waited) (s : Starting)
      → OpensEarly w
      → LoadsEarly s
      → LoadsEarly (try_load p a w s).0
  unfolding try_load load_failed
  try_load-LoadsEarly p a told_to_stop s soon h = h
  try_load-LoadsEarly p a waits s soon h = h
  try_load-LoadsEarly p a probe_raises s soon h = record { timely = h.timely; early = h.early }
  try_load-LoadsEarly p a (opened now) s soon h = loaded a.load
    where
      loaded :
          (l : Load)
          → LoadsEarly
              (elim l as (λ _. Starting × Started) [
                | loads ↦
                    (record s { loading_at = now ∷ s.loading_at; retrying_since = none }, ready)
                | load_fails ↦ (
                  load_failed p a.failed_at (record s { loading_at = now ∷ s.loading_at }),
                  goes_on,
                )
                | load_breaks ↦ (record s { loading_at = now ∷ s.loading_at }, crashes)
              ]).0
      loaded loads = record { timely = h.timely; early = (soon, h.early) }
      loaded load_fails = record { timely = h.timely; early = (soon, h.early) }
      loaded load_breaks = record { timely = h.timely; early = (soon, h.early) }

  go_round-LoadsEarly :
      (w : Waited) (tried rest : Starting × Started)
      → LoadsEarly tried.0
      → LoadsEarly rest.0
      → LoadsEarly (go_round w tried rest).0
  unfolding go_round
  go_round-LoadsEarly waits tried rest h k = h
  go_round-LoadsEarly told_to_stop (s, goes_on) rest h k = k
  go_round-LoadsEarly probe_raises (s, goes_on) rest h k = k
  go_round-LoadsEarly (opened now) (s, goes_on) rest h k = k
  go_round-LoadsEarly w (s, ready) rest h k = h
  go_round-LoadsEarly w (s, gives_up) rest h k = h
  go_round-LoadsEarly w (s, crashes) rest h k = h

  load_registry-LoadsEarly :
      (p : Pacing) (attempts : List Attempt) (s : Starting)
      → All (λ a. All IsShut a.polls) attempts
      → LoadsEarly s
      → LoadsEarly (load_registry p attempts s).0
  unfolding load_registry
  load_registry-LoadsEarly p [] s given h = h
  load_registry-LoadsEarly p (a ∷ attempts) s given h = elim (Bool-cases a.stopping) [
    | inl stop ↦ rw stop h
    | inr on ↦
        let waited = wait_for_upgrade_gate a.polls s.gate in
        let (timely, soon) = wait-EndsEarly a.polls s.gate given.0 h.timely in
        let tried = try_load p a waited.1 (record s { gate = waited.0 }) in
        let early =
          try_load-LoadsEarly p a waited.1 (record s { gate = waited.0 }) soon
            (record { timely = timely; early = h.early }) in
        rw on (
          go_round-LoadsEarly waited.1 tried (load_registry p attempts tried.0) early
            (load_registry-LoadsEarly p attempts tried.0 given.1 early))
  ]

-- If the upgrade gate of a starting thread is on and was last asked before `start` or never, and from
-- `start` on no probe of it finds the database free, then the thread begins no registry load from `start + interval` on,
-- however many loads and probes fail.
pub load_registry_stops :
    (start : ℕ) (p : Pacing) (attempts : List Attempt) (s : Starting)
    → s.gate.enabled ≡ true
    → asked_before start s.gate.checked_at ≡ true
    → s.loading_at ≡ []
    → All (λ a. All (IsShut start s.gate.interval) a.polls) attempts
    → All (λ now. now < start + s.gate.interval) (load_registry p attempts s).0.loading_at
load_registry_stops start p attempts s on before fresh upgrade =
    (load_registry-LoadsEarly start s.gate.interval p attempts s upgrade
      (record { timely = asked-IsTimely start s.gate on before; early = rw fresh tt })).early
