-- ===== src/Worker/Loop/Busy.antt =====
-- A worker that never runs out of jobs, and the stall watchdog of the supervisor.
use odoo_job_worker.Base.{
  ℕ, ◌+◌, ◌<◌, ◌≡◌, ◌∙◌, refl, Bool, true, false, List, [], ◌∷◌, All, leb, length, Bool-cases,
  Option-cases, inl, inr, arith,
}
use odoo_job_worker.Runner.Stall.{Served, is_stalled}
use odoo_job_worker.Worker.View.{upgrade_gate_is_open}
use odoo_job_worker.Worker.Loop.{Acquired, got, Round, Pool, submit, finish, process_jobs}
use odoo_job_worker.Worker.Loop.Slots.{Acquired-cases}

abbrev pub is_job : Acquired → Bool
is_job (got k) = true
is_job _ = false

-- Only the wait for a slot writes `last_progress`, not the acquisition of a job.
process_jobs-last_progress :
    (concurrency : ℕ) (rounds : List Round) (p : Pool)
    → All (λ r. is_job r.acquired ≡ true) rounds
    → (process_jobs concurrency rounds p).0.last_progress ≡ p.last_progress
unfolding process_jobs
process_jobs-last_progress concurrency [] p h = refl
process_jobs-last_progress concurrency (r ∷ rounds) p h =
    let seen = finish r.finished p in
    let polled = upgrade_gate_is_open r.at_time r.answer seen.view in
    let later = finish r.finished_late (record seen { view = polled.0 }) in
    elim (Bool-cases r.stopping) [
      | inl stop ↦ rw stop refl
      | inr goes ↦ elim (Bool-cases (leb concurrency (length seen.active_job_ids))) [
        | inl filled ↦ rw (goes, filled) refl
        | inr room ↦ elim (Option-cases polled.1) [
          | inl unknown ↦ rw (goes, room, unknown) refl
          | inr (false, shut) ↦ rw (goes, room, shut) refl
          | inr (true, wide) ↦ elim (Acquired-cases r.acquired) [
            | inl (k, job) ↦
                rw (goes, room, wide, job)
                  (process_jobs-last_progress concurrency rounds (submit r.at_time k later) h.1)
            | inr (inl lacks) ↦ let never : false ≡ true = rw lacks at h.0 in cc
            | inr (inr (inl fails)) ↦ let never : false ≡ true = rw fails at h.0 in cc
            | inr (inr (inr raises)) ↦ let never : false ≡ true = rw raises at h.0 in cc
          ]
        ]
      ]
    ]

-- If each round of `process_jobs` takes a job, however many there are, then the supervisor finds the
-- worker stalled as soon as its limit has passed since the call of `process_jobs`, although the worker
-- was never idle.
pub busy_worker_looks_stalled :
    (concurrency limit now : ℕ) (rounds : List Round) (p : Pool) (d : Served)
    → All (λ r. is_job r.acquired ≡ true) rounds
    → d.alive ≡ true
    → d.last_progress ≡ (process_jobs concurrency rounds p).0.last_progress
    → p.last_progress + limit < now
    → is_stalled limit now d ≡ true
busy_worker_looks_stalled concurrency limit now rounds p d takes alive seen late =
    let same = seen ∙ process_jobs-last_progress concurrency rounds p takes in
    ground (arith, same, alive)
