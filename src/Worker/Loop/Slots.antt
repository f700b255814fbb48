-- ===== src/Worker/Loop/Slots.antt =====
-- The slots of the pool, and the attempts of a database operation.
use odoo_job_worker.Base.{
  ℕ, zero, suc, ◌+◌, ◌≡◌, ◌≤◌, ◌<◌, refl, true, false, List, [], ◌∷◌, ◌==◌, leb, if◌then◌else◌,
  length, arith, ◌⊎◌, Option-cases, Bool-cases, inl, inr, subst,
}
use odoo_job_worker.Worker.View.{upgrade_gate_is_open}
use odoo_job_worker.Worker.Loop.{
  Attempted, returned, conflict, gives, retry_from, retry_db_operation, Acquired, got, none_left,
  transient, fatal, Round, Left, drained, Pool, without, submit, finish, is_idle, process_jobs,
}

length-without : (gone ids : List ℕ) → length (without gone ids) ≤ length ids
length-without gone [] = omega arith
length-without gone (k ∷ ids) = ground (arith, length-without gone ids)

pub Acquired-cases :
    (a : Acquired) → ((k : ℕ) × (a ≡ got k)) ⊎ (a ≡ none_left) ⊎ (a ≡ transient) ⊎ (a ≡ fatal)
Acquired-cases (got k) = inl (k, refl)
Acquired-cases none_left = inr (inl refl)
Acquired-cases transient = inr (inr (inl refl))
Acquired-cases fatal = inr (inr (inr refl))

submit-within :
    (now k : ℕ) (p : Pool) (concurrency : ℕ)
    → suc (length p.active_job_ids) ≤ concurrency
    → length (submit now k p).active_job_ids ≤ concurrency
submit-within now k p concurrency h = ground arith

idle_or :
    (concurrency : ℕ) (p : Pool) (next : Pool × Left)
    → length p.active_job_ids ≤ concurrency
    → length next.0.active_job_ids ≤ concurrency
    → length (if is_idle p then (p, drained) else next).0.active_job_ids ≤ concurrency
idle_or concurrency p next h k = elim (Bool-cases (is_idle p)) [
  | inl idle ↦ rw idle h
  | inr busy ↦ rw busy k
]

-- If no more jobs are active than the concurrency allows, then none are when `process_jobs` ends,
-- nor where it still runs, whatever it acquires and whatever jobs finish meanwhile.
pub process_jobs_within_concurrency :
    (concurrency : ℕ) (rounds : List Round) (p : Pool)
    → length p.active_job_ids ≤ concurrency
    → length (process_jobs concurrency rounds p).0.active_job_ids ≤ concurrency
unfolding process_jobs
process_jobs_within_concurrency concurrency [] p h = h
process_jobs_within_concurrency concurrency (r ∷ rounds) p h =
    let seen = finish r.finished p in
    let polled = upgrade_gate_is_open r.at_time r.answer seen.view in
    let asked = record seen { view = polled.0 } in
    let later = finish r.finished_late asked in
    let waiting = record later { last_progress = r.at_time } in
    let fewer = length-without r.finished p.active_job_ids in
    let still = length-without r.finished_late seen.active_job_ids in
    elim (Bool-cases r.stopping) [
      | inl stop ↦ rw stop h
      | inr goes ↦ elim (Bool-cases (leb concurrency (length seen.active_job_ids))) [
        | inl filled ↦ rw (goes, filled) (omega (arith, fewer))
        | inr room ↦ elim (Option-cases polled.1) [
          | inl unknown ↦ rw (goes, room, unknown) (omega (arith, fewer))
          | inr (false, shut) ↦ rw (goes, room, shut) (omega (arith, fewer))
          | inr (true, wide) ↦
              let bound : length later.active_job_ids ≤ concurrency = omega (arith, fewer, still) in
              let slot : suc (length later.active_job_ids) ≤ concurrency = ground (arith, still) in
              let waits =
                idle_or concurrency later (process_jobs concurrency rounds waiting) bound
                  (process_jobs_within_concurrency concurrency rounds waiting bound) in
              elim (Acquired-cases r.acquired) [
                | inl (k, job) ↦
                    rw (goes, room, wide, job)
                      (process_jobs_within_concurrency concurrency rounds (submit r.at_time k later)
                        (submit-within r.at_time k later concurrency slot))
                | inr (inl lacks) ↦ rw (goes, room, wide, lacks) waits
                | inr (inr (inl fails)) ↦ rw (goes, room, wide, fails) waits
                | inr (inr (inr raises)) ↦ rw (goes, room, wide, raises) bound
              ]
        ]
      ]
    ]

-- The attempts before `n` meet conflicts.
retry_from_lem :
    {A : Type 0} (left n attempt : ℕ) (operation : ℕ → Attempted A) (a : A)
    → n < left
    → ((i : ℕ) → i < n → operation (attempt + i) ≡ conflict)
    → operation (attempt + n) ≡ returned a
    → retry_from left attempt operation ≡ gives a
unfolding retry_from
retry_from_lem zero n attempt operation a less before at_n = absurd (omega arith)
retry_from_lem (suc left) zero attempt operation a less before at_n =
    let now : operation attempt ≡ returned a =
      subst (λ i. operation i ≡ returned a) (omega arith) at_n in
    rw (retry_from, now) refl
retry_from_lem (suc left) (suc n) attempt operation a less before at_n =
    let now : operation attempt ≡ conflict =
      subst (λ i. operation i ≡ conflict) (omega arith) (before 0 (omega arith)) in
    let more : left == 0 ≡ false = ground arith in
    let rest =
      retry_from_lem left n (attempt + 1) operation a (omega arith)
        (λ i h. subst (λ k. operation k ≡ conflict) (omega arith) (before (suc i) (omega arith)))
        (subst (λ k. operation k ≡ returned a) (omega arith) at_n) in
    rw (retry_from, now, more) rest

-- If an operation meets conflicts in its first `n` attempts and then returns, and more than `n`
-- attempts are allowed, then `_retry_db_operation` gives what it returns.
pub retry_db_operation_gives :
    {A : Type 0} (max_retries n : ℕ) (operation : ℕ → Attempted A) (a : A)
    → n < max_retries
    → ((i : ℕ) → i < n → operation i ≡ conflict)
    → operation n ≡ returned a
    → retry_db_operation max_retries operation ≡ gives a
unfolding retry_db_operation
retry_db_operation_gives max_retries n operation a less before at_n =
    retry_from_lem max_retries n 0 operation a less
      (λ i h. subst (λ k. operation k ≡ conflict) (omega arith) (before i h))
      (subst (λ k. operation k ≡ returned a) (omega arith) at_n)
