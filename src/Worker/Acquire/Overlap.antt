-- ===== src/Worker/Acquire/Overlap.antt =====
-- Workers whose selections overlap: each reads the table before any of the others commits, and skips
-- the rows that those hold locked.
pub mod Exceeds
use mathlib.Core.List.{Memᴰ}
use odoo_job_worker.Base.{
  ℕ, suc, ◌+◌, ◌≤◌, ◌<◌, ◌≡◌, refl, ap, ◌∙◌, subst, Bool, true, false, not, ◌&&◌, ◌||◌, Option,
  none, some, List, [], ◌∷◌, String, length, Bool-cases, inl, inr, same_text, or_zero, ◌==◌, arith,
}
use odoo_job_worker.Job.{
  Job, HasUniqueIds, HasUniqueIds-update_if, count_if-write, count_if-write_new, with_id, write,
  is_started, is_pending, waits_on, barred_by,
}
use odoo_job_worker.Worker.Acquire.{
  Limit, running_count, runs_fresh, find_limit, concurrency_limit, is_eligible, pick, start,
  restart, give_up, fail_orphan, cascade_worker_death, is_exhausted, reclaim, claim,
}
use odoo_job_worker.Worker.Acquire.Limits.{give_up_counts, cascade_counts, claim_counts}
use odoo_job_worker.Worker.Acquire.Order.{is_open, IsFirst, pick-IsFirst}

-- The rows that are locked once a selection took one more.
abbrev pub held : (ℕ → Bool) → Option Job → ℕ → Bool
held locked none k = locked k
held locked (some j) k = locked k || j.id == k

-- The workers in the order in which they lock their rows and then commit: all read `snapshot`, each
-- writes to the table that those before it left.
unfoldable pub overlap : ℕ → ℕ → List Limit → List Job → (ℕ → Bool) → List ℕ → List Job → List Job
overlap now stale limits snapshot locked [] rows = rows
overlap now stale limits snapshot locked (worker ∷ workers) rows =
    let taken = pick (is_open now stale limits locked snapshot) snapshot in
    overlap now stale limits snapshot (held locked taken) workers (claim now worker taken rows).0

pub claim-HasUniqueIds :
    (now worker : ℕ) (o : Option Job) (rows : List Job)
    → HasUniqueIds rows
    → HasUniqueIds (claim now worker o rows).0
unfolding claim reclaim cascade_worker_death start restart give_up fail_orphan
claim-HasUniqueIds now worker none rows u = u
claim-HasUniqueIds now worker (some j) rows u = elim (Bool-cases (is_started j.state)) [
  | inl old ↦ elim (Bool-cases (is_exhausted j.max_retries (or_zero j.attempts + 1))) [
    | inl spent ↦
        rw (old, spent)
          (HasUniqueIds-update_if (barred_by j.id) (fail_orphan now j.id) (λ r. refl) _
            (HasUniqueIds-update_if (waits_on j.id) (fail_orphan now j.id) (λ r. refl) _
              (HasUniqueIds-update_if (with_id j.id) (give_up now (or_zero j.attempts + 1))
                (λ r. refl) rows u)))
    | inr left ↦
        rw (old, left)
          (HasUniqueIds-update_if (with_id j.id) (restart now worker (or_zero j.attempts + 1))
            (λ r. refl) rows u)
  ]
  | inr fresh ↦
      rw fresh (HasUniqueIds-update_if (with_id j.id) (start now worker) (λ r. refl) rows u)
]

module _ (now stale : ℕ) (channel : Option String) where
  write_adds :
      (k : ℕ) (f : Job → Job) (rows : List Job)
      → HasUniqueIds rows
      → running_count now stale channel (write k f rows)
        ≤ suc (running_count now stale channel rows)
  unfolding running_count
  write_adds k f rows u =
      count_if-write (λ r. runs_fresh now stale r && same_text r.channel channel) k f rows u

  claim_adds :
      (worker : ℕ) (o : Option Job) (rows : List Job)
      → HasUniqueIds rows
      → running_count now stale channel (claim now worker o rows).0
        ≤ suc (running_count now stale channel rows)
  unfolding claim reclaim
  claim_adds worker none rows u = omega arith
  claim_adds worker (some j) rows u =
      let attempts = or_zero j.attempts + 1 in
      elim (Bool-cases (is_started j.state)) [
        | inl old ↦ elim (Bool-cases (is_exhausted j.max_retries attempts)) [
          | inl spent ↦
              rw (old, spent)
                (omega (
                  arith,
                  cascade_counts now stale channel j.id (write j.id (give_up now attempts) rows),
                  give_up_counts now stale channel j.id attempts rows,
                ))
          | inr left ↦ rw (old, left) (write_adds j.id (restart now worker attempts) rows u)
        ]
        | inr fresh ↦ rw fresh (write_adds j.id (start now worker) rows u)
      ]

  overlap_adds :
      (limits : List Limit) (snapshot : List Job) (locked : ℕ → Bool) (workers : List ℕ)
      (rows : List Job)
      → HasUniqueIds rows
      → running_count now stale channel (overlap now stale limits snapshot locked workers rows)
        ≤ running_count now stale channel rows + length workers
  unfolding overlap
  overlap_adds limits snapshot locked [] rows u = omega arith
  overlap_adds limits snapshot locked (w ∷ workers) rows u =
      let taken = pick (is_open now stale limits locked snapshot) snapshot in
      omega (
        arith,
        claim_adds w taken rows u,
        overlap_adds limits snapshot (held locked taken) workers (claim now w taken rows).0
            (claim-HasUniqueIds now w taken rows u),
      )

  first_within :
      (worker : ℕ) (limits : List Limit) (rows : List Job) (test : Job → Bool) (o : Option Job)
      → ((j : Job) → test j ≡ true → is_eligible now stale limits rows j ≡ true)
      → IsFirst test rows o
      → HasUniqueIds rows
      → running_count now stale channel rows ≤ concurrency_limit (find_limit channel limits)
      → running_count now stale channel (claim now worker o rows).0
        ≤ concurrency_limit (find_limit channel limits)
  unfolding claim
  first_within worker limits rows test none eligible f u h = h
  first_within worker limits rows test (some j) eligible f u h =
      claim_counts now stale channel worker limits rows j u f.0 (eligible j f.1) h

  -- Let ids be unique. If a channel does not run more fresh jobs than its limit, then after any number
  -- of workers whose selections overlap, each reading the table before the others commit, it runs at
  -- most one more job than the limit for each worker after the first.
  pub overlap_exceeds_by_others :
      (limits : List Limit) (locked : ℕ → Bool) (worker : ℕ) (others : List ℕ) (rows : List Job)
      → HasUniqueIds rows
      → running_count now stale channel rows ≤ concurrency_limit (find_limit channel limits)
      → running_count now stale channel
          (overlap now stale limits rows locked (worker ∷ others) rows)
        ≤ concurrency_limit (find_limit channel limits) + length others
  unfolding overlap
  overlap_exceeds_by_others limits locked worker others rows u h =
      let test = is_open now stale limits locked rows in
      let taken = pick test rows in
      omega (
        arith,
        first_within worker limits rows test taken
            (λ j. both_left (is_eligible now stale limits rows j) (not (locked j.id)))
            (pick-IsFirst test rows) u h,
        overlap_adds limits rows (held locked taken) others (claim now worker taken rows).0
            (claim-HasUniqueIds now worker taken rows u),
      )
    where
      both_left : (a b : Bool) → a && b ≡ true → a ≡ true
      both_left a b e = ground arith
