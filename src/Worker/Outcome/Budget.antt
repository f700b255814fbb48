-- ===== src/Worker/Outcome/Budget.antt =====
-- How often a job is attempted before it fails for good.
use odoo_job_worker.Base.{
  ℕ, ◌+◌, ◌≤◌, ◌<◌, ◌≡◌, ◌≢◌, ◌∙◌, refl, sym, subst, List, [], ◌∷◌, String, length, or_zero,
  if◌then◌else◌, arith,
}
use odoo_job_worker.Job.{Job, Settings, State, pending, started, failed}
use odoo_job_worker.Worker.Acquire.{start, restart, give_up, is_exhausted}
use odoo_job_worker.Worker.Outcome.{Config, other, after_exception}

-- How an attempt ends without completing and counts: the method raises an exception other than a
-- `RetryableJobError` and a `TransientRegistryError`, the two that `handle_exception` deals with
-- apart and that are left out here; or the worker dies and the row is reclaimed.
pub data Mishap : Type 0 where
  raises : (text : String) → Mishap
  dies : Mishap

-- What a worker writes when it takes a pending job, and when it reclaims a started one.
abbrev taken : ℕ → ℕ → Job → State → Job
taken now worker r pending = start now worker r
taken now worker r _ = r

reclaimed : ℕ → ℕ → Job → Job
reclaimed now worker r =
    if is_exhausted r.max_retries (or_zero r.attempts + 1)
    then give_up now (or_zero r.attempts + 1) r
    else restart now worker (or_zero r.attempts + 1) r

-- One attempt at a pending or started job, up to the mishap and what is recorded of it.
unfoldable pub attempt : Config → ℕ → Mishap → Job → Job
unfolding reclaimed
attempt c now (raises text) r = after_exception c now text other (taken now c.worker_uuid r r.state)
attempt c now dies r = reclaimed now c.worker_uuid (taken now c.worker_uuid r r.state)

unfoldable pub attempts_of : Config → ℕ → List Mishap → Job → Job
attempts_of c now [] r = r
attempts_of c now (m ∷ ms) r = attempts_of c now ms (attempt c now m r)

-- The job can be taken.
abbrev pub IsTaken : State → Type 0
IsTaken pending = Unit
IsTaken started = Unit
IsTaken _ = ⊥

attempt-settings :
    (c : Config) (now : ℕ) (m : Mishap) (r : Job) → (attempt c now m r).settings ≡ r.settings
unfolding attempt after_exception start restart give_up
attempt-settings c now (raises text) r = ground arith
attempt-settings c now dies r = ground arith

attempt_lem :
    (c : Config) (now : ℕ) (m : Mishap) (r : Job)
    → IsTaken r.state
    → r.max_retries ≢ 0
    → (or_zero (attempt c now m r).attempts ≡ or_zero r.attempts + 1)
      × (or_zero r.attempts < r.max_retries → IsTaken (attempt c now m r).state)
      × (r.max_retries ≤ or_zero r.attempts → (attempt c now m r).state ≡ failed)
unfolding attempt after_exception start restart give_up
attempt_lem c now (raises text) r t nz = ground arith
attempt_lem c now dies r t nz = ground arith

attempts_of-settings :
    (c : Config) (now : ℕ) (ms : List Mishap) (r : Job)
    → (attempts_of c now ms r).settings ≡ r.settings
unfolding attempts_of
attempts_of-settings c now [] r = refl
attempts_of-settings c now (m ∷ ms) r =
    attempts_of-settings c now ms (attempt c now m r) ∙ attempt-settings c now m r

attempts_of-IsTaken :
    (c : Config) (now : ℕ) (ms : List Mishap) (r : Job)
    → IsTaken r.state
    → r.max_retries ≢ 0
    → or_zero r.attempts + length ms ≤ r.max_retries
    → IsTaken (attempts_of c now ms r).state
      × (or_zero (attempts_of c now ms r).attempts ≡ or_zero r.attempts + length ms)
unfolding attempts_of
attempts_of-IsTaken c now [] r t nz h = (t, omega arith)
attempts_of-IsTaken c now (m ∷ ms) r t nz h =
    let (one_more, goes_on, _) = attempt_lem c now m r t nz in
    let same = attempt-settings c now m r in
    let (t', counted) =
      attempts_of-IsTaken c now ms (attempt c now m r) (goes_on (omega arith))
        (subst (λ (s : Settings). s.max_retries ≢ 0) (sym same) nz)
        (subst (λ (s : Settings). or_zero (attempt c now m r).attempts + length ms ≤ s.max_retries)
          (sym same) (omega arith)) in
    (t', omega arith)

-- Take a pending job with no attempt counted and `max_retries` = n, not 0, each of whose attempts
-- ends with a mishap: the method raises an exception that is neither a `RetryableJobError` nor a
-- `TransientRegistryError`, or the worker dies and the row is reclaimed. It is attempted n + 1 times:
-- after n mishaps, of both kinds in any mix, it can be taken again and counts n, and one mishap more
-- fails it.
pub retry_budget :
    (c : Config) (now : ℕ) (r : Job) (ms : List Mishap) (last : Mishap)
    → r.state ≡ pending
    → or_zero r.attempts ≡ 0
    → r.max_retries ≢ 0
    → length ms ≡ r.max_retries
    → IsTaken (attempts_of c now ms r).state
      × (or_zero (attempts_of c now ms r).attempts ≡ r.max_retries)
      × ((attempt c now last (attempts_of c now ms r)).state ≡ failed)
retry_budget c now r ms last p z nz l =
    let taken_first : IsTaken r.state = subst IsTaken (sym p) tt in
    let (t, counted) = attempts_of-IsTaken c now ms r taken_first nz (omega arith) in
    let same = attempts_of-settings c now ms r in
    let (_, _, ends) =
      attempt_lem c now last (attempts_of c now ms r) t
        (subst (λ (s : Settings). s.max_retries ≢ 0) (sym same) nz) in
    (
      t,
      omega arith,
      ends (
          subst (λ (s : Settings). s.max_retries ≤ or_zero (attempts_of c now ms r).attempts)
            (sym same) (omega arith)),
    )
