-- ===== src/Worker/Loop/Cycle/Trace.antt =====
-- Invariants of a worker's view through `process_jobs`, the cycles and the sessions of `run`.
use odoo_job_worker.Base.{
  ◌⊎◌, ℕ, ◌≡◌, refl, Bool, true, false, Option, none, some, List, [], ◌∷◌, All, leb, length,
  if◌then◌else◌, Bool-cases, Option-cases, inl, inr,
}
use odoo_job_worker.Gate.State.{Answer}
use odoo_job_worker.Worker.View.{View, upgrade_gate_is_open, check_registry, note_take}
use odoo_job_worker.Worker.Loop.{
  Round, Left, drained, Pool, submit, finish, is_idle, process_jobs, raised, unfinished, stopped,
  full, paused,
}
use odoo_job_worker.Worker.Loop.Slots.{Acquired-cases}
use odoo_job_worker.Worker.Loop.Cycle.{
  Beat, beaten, skipped, beat_fails, Cycle, QueueWorker, Ended, completed, broke_off, goes_on,
  begin_cycle, after_beat, after_jobs, after_gate, serve_cycle, listen_and_serve, Session, recover,
  run, go_round, reconnect,
}

-- `Rests` holds of the view between the cycles, `Serves` while jobs are taken; `Given` is what is
-- known of the answer at a time.
pub record IsKept (Given : ℕ → Answer → Type 0) (Rests Serves : View → Type 0) : Type 0 where
  pub rest : (v : View) → Serves v → Rests v
  pub ask :
      (now : ℕ) (a : Answer) (v : View)
      → Given now a
      → Rests v
      → ((upgrade_gate_is_open now a v).1 ≡ none) ⊎ ((upgrade_gate_is_open now a v).1 ≡ some false)
      → Rests (upgrade_gate_is_open now a v).0
  pub begin :
      (now : ℕ) (a : Answer) (v : View)
      → Given now a
      → Rests v
      → (upgrade_gate_is_open now a v).1 ≡ some true
      → Serves (check_registry now (upgrade_gate_is_open now a v).0)
  pub go_on :
      (now : ℕ) (a : Answer) (v : View)
      → Given now a
      → Serves v
      → (upgrade_gate_is_open now a v).1 ≡ some true
      → Serves (upgrade_gate_is_open now a v).0
        × ((k : ℕ) → Serves (note_take now k (upgrade_gate_is_open now a v).0))

module _ {Given : ℕ → Answer → Type 0} {Rests Serves : View → Type 0}
    (kept : IsKept Given Rests Serves) where
  abbrev pub RoundGiven : Round → Type 0
  RoundGiven r = Given r.at_time r.answer

  abbrev pub CycleGiven : Cycle → Type 0
  CycleGiven c = Given c.at_time c.answer × All RoundGiven c.rounds

  idle_or_rests :
      (p : Pool) (next : Pool × Left)
      → Rests p.view
      → Rests next.0.view
      → Rests (if is_idle p then (p, drained) else next).0.view
  idle_or_rests p next h k = elim (Bool-cases (is_idle p)) [
    | inl idle ↦ rw idle h
    | inr busy ↦ rw busy k
  ]

  process_jobs-rests :
      (concurrency : ℕ) (rounds : List Round) (p : Pool)
      → All RoundGiven rounds
      → Serves p.view
      → Rests (process_jobs concurrency rounds p).0.view
  unfolding process_jobs
  process_jobs-rests concurrency [] p given h = kept.rest p.view h
  process_jobs-rests concurrency (r ∷ rounds) p given h =
      let seen = finish r.finished p in
      let polled = upgrade_gate_is_open r.at_time r.answer seen.view in
      let asked = record seen { view = polled.0 } in
      let later = finish r.finished_late asked in
      let waiting = record later { last_progress = r.at_time } in
      let still = kept.rest p.view h in
      let after = kept.ask r.at_time r.answer p.view given.0 still in
      elim (Bool-cases r.stopping) [
        | inl stop ↦ rw stop still
        | inr goes ↦ elim (Bool-cases (leb concurrency (length seen.active_job_ids))) [
          | inl filled ↦ rw (goes, filled) still
          | inr room ↦ elim (Option-cases polled.1) [
            | inl unknown ↦ rw (goes, room, unknown) (after (inl unknown))
            | inr (false, shut) ↦ rw (goes, room, shut) (after (inr shut))
            | inr (true, wide) ↦
                let (same, taken) = kept.go_on r.at_time r.answer p.view given.0 h wide in
                let opened = kept.rest polled.0 same in
                let waits =
                  idle_or_rests later (process_jobs concurrency rounds waiting) opened
                    (process_jobs-rests concurrency rounds waiting given.1 same) in
                elim (Acquired-cases r.acquired) [
                  | inl (k, job) ↦
                      rw (goes, room, wide, job)
                        (process_jobs-rests concurrency rounds (submit r.at_time k later) given.1
                          (taken k))
                  | inr (inl lacks) ↦ rw (goes, room, wide, lacks) waits
                  | inr (inr (inl fails)) ↦ rw (goes, room, wide, fails) waits
                  | inr (inr (inr raises)) ↦ rw (goes, room, wide, raises) opened
                ]
          ]
        ]
      ]

  after_beat-pool : (b : Beat) (w : QueueWorker) → (after_beat b w).0.pool ≡ w.pool
  unfolding after_beat
  after_beat-pool beaten w = refl
  after_beat-pool skipped w = refl
  after_beat-pool beat_fails w = refl

  after_jobs-pool : (b : Beat) (l : Left) (w : QueueWorker) → (after_jobs b l w).0.pool ≡ w.pool
  unfolding after_jobs
  after_jobs-pool b stopped w = after_beat-pool b w
  after_jobs-pool b full w = after_beat-pool b w
  after_jobs-pool b paused w = after_beat-pool b w
  after_jobs-pool b drained w = after_beat-pool b w
  after_jobs-pool b raised w = refl
  after_jobs-pool b unfinished w = refl

  after_gate-rests :
      (c : Cycle) (polled : View × Option Bool) (w : QueueWorker)
      → All RoundGiven c.rounds
      → ((polled.1 ≡ none) ⊎ (polled.1 ≡ some false) → Rests polled.0)
      → (polled.1 ≡ some true → Serves (check_registry c.at_time polled.0))
      → Rests (after_gate c polled w).0.pool.view
  unfolding after_gate
  after_gate-rests c (v, none) w given h begun = h (inl refl)
  after_gate-rests c (v, some false) w given h begun =
      rw (after_beat-pool c.beat (record w { pool = record w.pool { view = v } })) (h (inr refl))
  after_gate-rests c (v, some true) w given h begun =
      let ready = record w.pool { view = check_registry c.at_time v } in
      let served = process_jobs w.concurrency c.rounds ready in
      rw (after_jobs-pool c.beat served.1 (record w { pool = served.0 }))
        (process_jobs-rests w.concurrency c.rounds ready given (begun refl))

  serve_cycle-rests :
      (c : Cycle) (w : QueueWorker)
      → CycleGiven c
      → Rests w.pool.view
      → Rests (serve_cycle c w).0.pool.view
  unfolding serve_cycle
  serve_cycle-rests c w given h =
      after_gate-rests c (upgrade_gate_is_open c.at_time c.answer w.pool.view)
        (record w { pool = begin_cycle c.at_time w.pool }) given.1
        (kept.ask c.at_time c.answer w.pool.view given.0 h)
        (kept.begin c.at_time c.answer w.pool.view given.0 h)

  go_round-rests :
      (e : Ended) (next : QueueWorker) (rest : QueueWorker × Ended)
      → Rests next.pool.view
      → Rests rest.0.pool.view
      → Rests (go_round e next rest).0.pool.view
  go_round-rests completed next rest h k = k
  go_round-rests broke_off next rest h k = h
  go_round-rests goes_on next rest h k = h

  reconnect-rests :
      (e : Ended) (after rest : QueueWorker)
      → Rests after.pool.view
      → Rests rest.pool.view
      → Rests (reconnect e after rest).pool.view
  reconnect-rests completed after rest h k = h
  reconnect-rests broke_off after rest h k = k
  reconnect-rests goes_on after rest h k = h

  listen_and_serve-rests :
      (cycles : List Cycle) (w : QueueWorker)
      → All CycleGiven cycles
      → Rests w.pool.view
      → Rests (listen_and_serve cycles w).0.pool.view
  unfolding listen_and_serve
  listen_and_serve-rests [] w given h = h
  listen_and_serve-rests (c ∷ cycles) w given h =
      let next = serve_cycle-rests c w given.0 h in
      go_round-rests (serve_cycle c w).1 (serve_cycle c w).0
        (listen_and_serve cycles (serve_cycle c w).0) next
        (listen_and_serve-rests cycles (serve_cycle c w).0 given.1 next)

  pub run-rests :
      (sessions : List Session) (w : QueueWorker)
      → All (λ s. All CycleGiven s.cycles) sessions
      → Rests w.pool.view
      → Rests (run sessions w).pool.view
  unfolding run
  run-rests [] w given h = h
  run-rests (s ∷ sessions) w given h = elim (Bool-cases s.listens) [
    | inl heard ↦
        let served = listen_and_serve-rests s.cycles w given.0 h in
        rw heard (
          reconnect-rests (listen_and_serve s.cycles w).1 (listen_and_serve s.cycles w).0
            (run sessions (recover s.failed_at (listen_and_serve s.cycles w).0)) served
            (run-rests sessions (recover s.failed_at (listen_and_serve s.cycles w).0) given.1
              served))
    | inr deaf ↦ rw deaf (run-rests sessions (recover s.failed_at w) given.1 h)
  ]
