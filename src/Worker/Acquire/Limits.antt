-- ===== src/Worker/Acquire/Limits.antt =====
-- The jobs that run in a channel, and its concurrency limit.
use mathlib.Core.List.{Memᴰ}
use odoo_job_worker.Base.{
  ℕ, ◌+◌, ◌≤◌, ◌<◌, ◌≡◌, refl, subst, Bool, true, ◌&&◌, Option, none, some, List, String, All-map,
  everywhere, Bool-cases, inl, inr, same_text, same_text_eq, or_zero, ltb→lt, update_if, arith,
}
use odoo_job_worker.Job.{
  Job, Settings, HasUniqueIds, only_one, count_if-write, count_if-update_if, with_id, write,
  is_started, waits_on, barred_by,
}
use odoo_job_worker.Worker.Acquire.{
  Limit, running_count, runs_fresh, find_limit, concurrency_limit, is_due, is_takeable, is_eligible,
  pick, start, restart, give_up, fail_orphan, cascade_worker_death, is_exhausted, reclaim, claim,
  acquire_job_lock,
}
use odoo_job_worker.Worker.Acquire.Order.{is_open, IsFirst, pick-IsFirst}

and_right : (a b : Bool) → a && b ≡ true → b ≡ true
and_right a b h = ground arith

and_left : (a b : Bool) → a && b ≡ true → a ≡ true
and_left a b h = ground arith

module _ (now stale : ℕ) (channel : Option String) where
  abbrev counts : Job → Bool
  counts r = runs_fresh now stale r && same_text r.channel channel

  -- A write that keeps the settings of the job `j` adds one to its own channel at most.
  write_counts :
      (j : Job) (f : Job → Job) (limit : ℕ) (rows : List Job)
      → ((r : Job) → (f r).settings ≡ r.settings)
      → HasUniqueIds rows
      → Memᴰ j rows
      → (same_text j.channel channel ≡ true → running_count now stale channel rows < limit)
      → running_count now stale channel rows ≤ limit
      → running_count now stale channel (write j.id f rows) ≤ limit
  unfolding running_count
  write_counts j f limit rows keeps u m room h = elim (Bool-cases (same_text j.channel channel)) [
    | inl same ↦ omega (arith, room same, count_if-write counts j.id f rows u)
    | inr other ↦ omega (
      arith,
      count_if-update_if counts (with_id j.id) f rows (
          All-map {Q = λ r. with_id j.id r ≡ true → counts (f r) ≡ true → counts r ≡ true}
            (λ r only hit counted.
              let named : same_text (f r).settings.channel channel ≡ true =
                and_right (runs_fresh now stale (f r)) _ counted in
              let same : same_text j.channel channel ≡ true =
                subst (λ (x : Job). same_text x.channel channel ≡ true) (only hit)
                  (subst (λ (s : Settings). same_text s.channel channel ≡ true) (keeps r) named) in
              cc)
            rows (only_one j rows u m)),
    )
  ]

  fail_orphan_idle : (job : ℕ) (r : Job) → counts (fail_orphan now job r) ≡ true → ⊥
  unfolding fail_orphan
  fail_orphan_idle job r h = ground arith

  start_keeps : (worker : ℕ) (r : Job) → (start now worker r).settings ≡ r.settings
  unfolding start
  start_keeps worker r = refl

  restart_keeps :
      (worker attempts : ℕ) (r : Job) → (restart now worker attempts r).settings ≡ r.settings
  unfolding restart
  restart_keeps worker attempts r = refl

  fail_orphan_counts :
      (job : ℕ) (q : Job → Bool) (rows : List Job)
      → running_count now stale channel (update_if q (fail_orphan now job) rows)
        ≤ running_count now stale channel rows
  unfolding running_count
  fail_orphan_counts job q rows = count_if-update_if counts q (fail_orphan now job) rows (
      everywhere (λ r. q r ≡ true → counts (fail_orphan now job r) ≡ true → counts r ≡ true)
        (λ r _ counted. absurd (fail_orphan_idle job r counted)) rows)

  pub give_up_counts :
      (k attempts : ℕ) (rows : List Job)
      → running_count now stale channel (write k (give_up now attempts) rows)
        ≤ running_count now stale channel rows
  unfolding running_count give_up
  give_up_counts k attempts rows =
      count_if-update_if counts (with_id k) (give_up now attempts) rows (
        everywhere
          (λ r. with_id k r ≡ true → counts (give_up now attempts r) ≡ true → counts r ≡ true)
          (λ r _ counted. cc) rows)

  pub cascade_counts :
      (job : ℕ) (rows : List Job)
      → running_count now stale channel (cascade_worker_death now job rows)
        ≤ running_count now stale channel rows
  unfolding cascade_worker_death
  cascade_counts job rows = omega (
    arith,
    fail_orphan_counts job (barred_by job) (update_if (waits_on job) (fail_orphan now job) rows),
    fail_orphan_counts job (waits_on job) rows,
  )

  -- What a selected job tells of its channel.
  has_room :
      (limits : List Limit) (rows : List Job) (j : Job)
      → is_eligible now stale limits rows j ≡ true
      → same_text j.channel channel ≡ true
      → running_count now stale channel rows < concurrency_limit (find_limit channel limits)
  unfolding is_eligible
  has_room limits rows j e same =
      subst (λ c. running_count now stale c rows < concurrency_limit (find_limit c limits))
        (same_text_eq j.channel channel same)
        (ltb→lt _ _ (
          and_left _ _
            (and_right (is_due now j.scheduled_at) _ (and_right (is_takeable now stale j) _ e))))

  pub claim_counts :
      (worker : ℕ) (limits : List Limit) (rows : List Job) (j : Job)
      → HasUniqueIds rows
      → Memᴰ j rows
      → is_eligible now stale limits rows j ≡ true
      → running_count now stale channel rows ≤ concurrency_limit (find_limit channel limits)
      → running_count now stale channel (claim now worker (some j) rows).0
        ≤ concurrency_limit (find_limit channel limits)
  unfolding claim reclaim
  claim_counts worker limits rows j u m e h =
      let limit = concurrency_limit (find_limit channel limits) in
      let attempts = or_zero j.attempts + 1 in
      let room = has_room limits rows j e in
      elim (Bool-cases (is_started j.state)) [
        | inl old ↦ elim (Bool-cases (is_exhausted j.max_retries attempts)) [
          | inl spent ↦
              rw (old, spent)
                (omega (
                  arith,
                  cascade_counts j.id (write j.id (give_up now attempts) rows),
                  give_up_counts j.id attempts rows,
                ))
          | inr left ↦
              rw (old, left)
                (write_counts j (restart now worker attempts) limit rows
                  (restart_keeps worker attempts) u m room h)
        ]
        | inr fresh ↦
            rw fresh (write_counts j (start now worker) limit rows (start_keeps worker) u m room h)
      ]

  -- Let ids be unique in the table. If a channel does not run more fresh jobs than its limit, then
  -- neither does it after a worker took a job; this holds whatever rows other transactions hold locked, for reclaimed jobs too.
  pub acquire_within_limit :
      (worker : ℕ) (limits : List Limit) (locked : ℕ → Bool) (rows : List Job)
      → HasUniqueIds rows
      → running_count now stale channel rows ≤ concurrency_limit (find_limit channel limits)
      → running_count now stale channel (acquire_job_lock now stale worker limits locked rows).0
        ≤ concurrency_limit (find_limit channel limits)
  unfolding acquire_job_lock
  acquire_within_limit worker limits locked rows u h =
      taken (pick test rows) (pick-IsFirst test rows)
    where
      test : Job → Bool
      test = is_open now stale limits locked rows

      taken :
          (o : Option Job)
          → IsFirst test rows o
          → running_count now stale channel (claim now worker o rows).0
            ≤ concurrency_limit (find_limit channel limits)
      taken none f = unfold claim in h
      taken (some j) f =
          claim_counts worker limits rows j u f.0
            (and_left (is_eligible now stale limits rows j) _ f.1) h
