-- ===== src/Worker/Acquire/Claim.antt =====
-- What taking a job writes.
use mathlib.Core.Option.{some-injective}
use odoo_job_worker.Base.{
  ℕ, ◌+◌, ◌≡◌, ◌⊎◌, inl, inr, refl, Bool, false, not, ◌&&◌, Option, none, some, List, ◌==◌, or_zero,
  Bool-cases, get_elem?, get_elem?-update_if, arith,
}
use odoo_job_worker.Job.{Job, started, is_started, with_id, write}
use odoo_job_worker.Worker.Acquire.{
  Limit, start, restart, is_exhausted, is_eligible, pick, reclaim, claim, acquire_job_lock,
}

-- The worker's claim on a row, which is otherwise the row `r`.
abbrev pub IsClaimed : ℕ → ℕ → Job → Job → Type 0
IsClaimed now worker r a =
    (a.state ≡ started)
    × (a.worker_id ≡ some worker)
    × (a.heartbeat ≡ some now)
    × (a.started_at ≡ some now)
    × (a.id ≡ r.id)
    × (a.settings ≡ r.settings)

start-IsClaimed : (now worker : ℕ) (r : Job) → IsClaimed now worker r (start now worker r)
unfolding start
start-IsClaimed now worker r = (refl, refl, refl, refl, refl, refl)

restart-IsClaimed :
    (now worker attempts : ℕ) (r : Job) → IsClaimed now worker r (restart now worker attempts r)
unfolding restart start
restart-IsClaimed now worker attempts r = (refl, refl, refl, refl, refl, refl)

claim_writes :
    (now worker : ℕ) (o : Option Job) (rows : List Job) (k : ℕ)
    → (claim now worker o rows).1 ≡ some k
    → (f : Job → Job) × ((r : Job) → IsClaimed now worker r (f r))
      × ((claim now worker o rows).0 ≡ write k f rows)
unfolding claim reclaim
claim_writes now worker none rows k e = cc
claim_writes now worker (some j) rows k e = elim (Bool-cases (is_started j.state)) [
  | inl old ↦ elim (Bool-cases (is_exhausted j.max_retries (or_zero j.attempts + 1))) [
    | inl spent ↦ let missed : none ≡ some k = rw (old, spent) at e in cc
    | inr left ↦
        let same : j.id ≡ k = some-injective j.id k (rw (old, left) at e) in
        (
          restart now worker (or_zero j.attempts + 1),
          restart-IsClaimed now worker (or_zero j.attempts + 1),
          rw (old, left, same) refl,
        )
  ]
  | inr fresh ↦
      let same : j.id ≡ k = some-injective j.id k (rw fresh at e) in
      (start now worker, start-IsClaimed now worker, rw (fresh, same) refl)
]

-- When `acquire_job_lock` returns a job, the row of this job is claimed: it is started, owned by the
-- worker, with its heartbeat and its start at the present, and its id and settings are kept; every
-- other row is as it was.
pub acquire_claims :
    (now stale worker : ℕ) (limits : List Limit) (locked : ℕ → Bool) (rows : List Job) (k i : ℕ)
    (r : Job)
    → (acquire_job_lock now stale worker limits locked rows).1 ≡ some k
    → get_elem? rows i ≡ some r
    → (a : Job) × (get_elem? (acquire_job_lock now stale worker limits locked rows).0 i ≡ some a)
      × ((r.id ≡ k) × IsClaimed now worker r a ⊎ (r.id == k ≡ false) × (a ≡ r))
unfolding acquire_job_lock
acquire_claims now stale worker limits locked rows k i r e at_i =
    let test : Job → Bool = λ x. is_eligible now stale limits rows x && not (locked x.id) in
    let (f, claims, written) = claim_writes now worker (pick test rows) rows k e in
    elim (Bool-cases (with_id k r)) [
      | inl hit ↦ (
        f r,
        rw (written, get_elem?-update_if (with_id k) f rows i r at_i, hit),
        inl (ground arith, claims r),
      )
      | inr miss ↦
          (r, rw (written, get_elem?-update_if (with_id k) f rows i r at_i, miss), inr (miss, refl))
    ]
