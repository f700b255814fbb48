-- ===== src/Worker/Outcome/Backoff.antt =====
-- The delay between attempts.
use odoo_job_worker.Base.{ℕ, zero, suc, ◌+◌, ◌-◌, ◌*◌, ◌^◌, ◌≤◌, ◌≡◌, min, some, not, arith}
use native.Mathlib.Nat.{pow-suc}
use odoo_job_worker.Worker.Acquire.{is_exhausted}
use odoo_job_worker.Worker.Ownership.{is_paced}
use odoo_job_worker.Worker.Outcome.{backoff}

pow_two_pos : (n : ℕ) → 1 ≤ 2 ^ n
pow_two_pos zero = omega arith
pow_two_pos (suc n) = rw pow-suc (omega (arith, pow_two_pos n))

suc_sub : (n : ℕ) → suc n - 1 ≡ n
suc_sub n = omega arith

doubled :
    (ceiling a b : ℕ)
    → 10 ≤ ceiling
    → 1 ≤ a
    → b ≡ a * 2
    → min (10 * a) ceiling ≤ min (10 * b) ceiling
doubled ceiling a b h p e = omega arith

-- With a cap of 10 seconds or more (the constructor of the worker enforces it) the delay is at
-- least 10 seconds and at most the cap, and it is not shorter after one attempt more.
pub backoff_bounds :
    (ceiling attempts : ℕ)
    → 10 ≤ ceiling
    → (10 ≤ backoff ceiling attempts)
      × (backoff ceiling attempts ≤ ceiling)
      × (backoff ceiling attempts ≤ backoff ceiling (suc attempts))
unfolding backoff
backoff_bounds ceiling zero h = (omega arith, omega arith, omega arith)
backoff_bounds ceiling (suc n) h =
    let pos = pow_two_pos n in
    rw (suc_sub n, suc_sub (suc n))
      (omega (arith, pos), omega arith, doubled ceiling (2 ^ n) (2 ^ suc n) h pos (pow-suc 2 n))

-- Below the cap the delay doubles with each attempt after the first.
pub backoff_doubles :
    (ceiling n : ℕ)
    → 2 * backoff ceiling (suc n) ≤ ceiling
    → backoff ceiling (suc (suc n)) ≡ 2 * backoff ceiling (suc n)
unfolding backoff
backoff_doubles ceiling n = rw (suc_sub n, suc_sub (suc n)) (λ h. omega (arith, pow-suc 2 n))

-- The pacing of a timed out attempt and the reclaim of its row agree on whether the job has a retry
-- left, wherever the row counts its attempts.
pub is_paced-is_exhausted :
    (max_retries attempts : ℕ)
    → is_paced max_retries (some attempts) ≡ not (is_exhausted max_retries (attempts + 1))
is_paced-is_exhausted max_retries attempts = ground arith
