-- ===== src/System/Takes.antt =====
-- `acquire_job_lock` as a change that makes no row active and keeps ids and settings.

use odoo_job_worker.Base.{
  ℕ, ◌≡◌, refl, sym, subst, Bool, true, not, ◌&&◌, Option, none, some, List, [], ◌∷◌, All, Zip,
  Bool-cases, inl, inr, or_zero, ◌+◌, arith,
}
use odoo_job_worker.Job.{
  Job, is_active, is_started, waits_on, barred_by, with_id, write, HasUniqueIds, only_one,
}
use odoo_job_worker.Queue.Sound.{
  IsQuiet, IsQuiet-refl, Zip-IsQuiet-refl, Zip-IsQuiet-trans, update-IsQuiet,
}
use odoo_job_worker.Worker.Acquire.{
  Limit, start, restart, give_up, fail_orphan, cascade_worker_death, is_exhausted, is_eligible,
  reclaim, claim, acquire_job_lock, pick,
}
use odoo_job_worker.Worker.Acquire.Order.{pick-IsFirst, IsFirst}

-- A job that is taken is active, and its id names no other row.
write-IsQuiet :
    (f : Job → Job) (j : Job) (rows : List Job)
    → All (λ r. with_id j.id r ≡ true → r ≡ j) rows
    → IsQuiet j (f j)
    → Zip IsQuiet rows (write j.id f rows)
write-IsQuiet f j [] only q = tt
write-IsQuiet f j (r ∷ rows) only q = (
  elim (Bool-cases (with_id j.id r)) [
    | inl hit ↦ rw hit (subst (λ y. IsQuiet y (f y)) (sym (only.0 hit)) q)
    | inr miss ↦ rw miss (IsQuiet-refl r)
  ],
  write-IsQuiet f j rows only.1 q,
)

fail_orphan-IsQuiet :
    (now job : ℕ) (r : Job) → is_active r.state ≡ true → IsQuiet r (fail_orphan now job r)
unfolding fail_orphan
fail_orphan-IsQuiet now job r h = record { named = refl; same = refl; calms = λ a. h }

cascade_worker_death-IsQuiet :
    (now job : ℕ) (rows : List Job) → Zip IsQuiet rows (cascade_worker_death now job rows)
unfolding cascade_worker_death
cascade_worker_death-IsQuiet now job rows =
    Zip-IsQuiet-trans rows _ _
      (update-IsQuiet (waits_on job) _ (λ r h. fail_orphan-IsQuiet now job r (ground arith)) rows)
      (update-IsQuiet (barred_by job) _ (λ r h. fail_orphan-IsQuiet now job r (ground arith)) _)

start-IsQuiet :
    (now worker : ℕ) (r : Job) → is_active r.state ≡ true → IsQuiet r (start now worker r)
unfolding start
start-IsQuiet now worker r h = record { named = refl; same = refl; calms = λ a. h }

restart-IsQuiet :
    (now worker attempts : ℕ) (r : Job)
    → is_active r.state ≡ true
    → IsQuiet r (restart now worker attempts r)
unfolding restart start
restart-IsQuiet now worker attempts r h = record { named = refl; same = refl; calms = λ a. h }

give_up-IsQuiet : (now attempts : ℕ) (r : Job) → IsQuiet r (give_up now attempts r)
unfolding give_up
give_up-IsQuiet now attempts r = record { named = refl; same = refl; calms = λ h. cc }

reclaim-IsQuiet :
    (now worker : ℕ) (j : Job) (rows : List Job)
    → All (λ r. with_id j.id r ≡ true → r ≡ j) rows
    → is_active j.state ≡ true
    → Zip IsQuiet rows (reclaim now worker j rows).0
unfolding reclaim
reclaim-IsQuiet now worker j rows only active =
    elim (Bool-cases (is_exhausted j.max_retries (or_zero j.attempts + 1))) [
      | inl spent ↦ rw spent (
          Zip-IsQuiet-trans rows _ _
            (write-IsQuiet (give_up now (or_zero j.attempts + 1)) j rows only
              (give_up-IsQuiet now _ j))
            (cascade_worker_death-IsQuiet now j.id _))
      | inr left ↦ rw left (
          write-IsQuiet (restart now worker (or_zero j.attempts + 1)) j rows only
            (restart-IsQuiet now worker _ j active))
    ]

claim-IsQuiet :
    (now worker : ℕ) (j : Job) (rows : List Job)
    → All (λ r. with_id j.id r ≡ true → r ≡ j) rows
    → is_active j.state ≡ true
    → Zip IsQuiet rows (claim now worker (some j) rows).0
unfolding claim
claim-IsQuiet now worker j rows only active = elim (Bool-cases (is_started j.state)) [
  | inl old ↦ rw old (reclaim-IsQuiet now worker j rows only active)
  | inr fresh ↦
      rw fresh (write-IsQuiet (start now worker) j rows only (start-IsQuiet now worker j active))
]

is_eligible-active :
    (now stale : ℕ) (limits : List Limit) (rows : List Job) (j : Job)
    → is_eligible now stale limits rows j ≡ true
    → is_active j.state ≡ true
unfolding is_eligible
is_eligible-active now stale limits rows j h = ground arith

both_left : (a b : Bool) → a && b ≡ true → a ≡ true
both_left a b h = ground arith

pub acquire-IsQuiet :
    (now stale worker : ℕ) (limits : List Limit) (locked : ℕ → Bool) (rows : List Job)
    → HasUniqueIds rows
    → Zip IsQuiet rows (acquire_job_lock now stale worker limits locked rows).0
unfolding acquire_job_lock claim
acquire-IsQuiet now stale worker limits locked rows u =
    let test : Job → Bool = λ r. is_eligible now stale limits rows r && not (locked r.id) in
    taken test (λ j h. is_eligible-active now stale limits rows j (both_left _ _ h))
      (pick test rows) (pick-IsFirst test rows)
  where
    taken :
        (test : Job → Bool)
        → ((j : Job) → test j ≡ true → is_active j.state ≡ true)
        → (o : Option Job) → IsFirst test rows o
        → Zip IsQuiet rows (claim now worker o rows).0
    taken test active none f = Zip-IsQuiet-refl rows
    taken test active (some j) f =
        claim-IsQuiet now worker j rows (only_one j rows u f.0) (active j f.1)
