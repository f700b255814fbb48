-- ===== src/Graph/Cancel/Fuel.antt =====
-- The cascade of a cancellation under more fuel.

use odoo_job_worker.Base.{
  and_then-some, some-and_then, ℕ, zero, suc, ◌≤◌, ◌≡◌, subst, Option, some, inl, inr, List, [],
  ◌∷◌, ◌++◌, arith, ◌⊎◌,
}
use odoo_job_worker.Job.{Job, write}
use odoo_job_worker.Graph.Children.{cancel}
use odoo_job_worker.Graph.Cancel.{
  Pass, follow, waiting_children, cancel_listed, cancel_queue, cancel_dependents, cancel_each,
}

follow-some :
    (listed : List Job) (ids : List ℕ) (each each' next next' : Pass)
    → ((jobs : List ℕ) (rows after : List Job)
        → each jobs rows ≡ some after
        → each' jobs rows ≡ some after)
    → ((jobs : List ℕ) (rows after : List Job)
        → next jobs rows ≡ some after
        → next' jobs rows ≡ some after)
    → (after : List Job) → follow listed ids each next ≡ some after
    → follow listed ids each' next' ≡ some after
follow-some listed [] each each' next next' f g after e = e
follow-some listed (job ∷ rest) each each' next next' f g after e =
    let (mid, first, then_) =
      and_then-some (each (job ∷ rest) listed) (next (job ∷ rest)) after e in
    rw (f (job ∷ rest) listed mid first) (g (job ∷ rest) mid after then_)

module _ (now : ℕ) where
  mutual
    unfolding cancel_queue cancel_dependents cancel_each

    queue_suc :
        (fuel : ℕ) (queue : List ℕ) (rows after : List Job)
        → cancel_queue fuel now queue rows ≡ some after
        → cancel_queue (suc fuel) now queue rows ≡ some after
    queue_suc zero queue rows after e = cc
    queue_suc (suc fuel) [] rows after e = e
    queue_suc (suc fuel) (job ∷ queue) rows after e =
        let written = write job (cancel now) rows in
        let (mid, first, rest) =
          and_then-some (cancel_dependents fuel now (job ∷ []) written)
            (cancel_queue fuel now (queue ++ waiting_children job written)) after e in
        some-and_then (cancel_dependents (suc fuel) now (job ∷ []) written)
          (cancel_queue (suc fuel) now (queue ++ waiting_children job written)) mid after
          (dependents_suc fuel (job ∷ []) written mid first)
          (queue_suc fuel (queue ++ waiting_children job written) mid after rest)

    dependents_suc :
        (fuel : ℕ) (jobs : List ℕ) (rows after : List Job)
        → cancel_dependents fuel now jobs rows ≡ some after
        → cancel_dependents (suc fuel) now jobs rows ≡ some after
    dependents_suc zero jobs rows after e = cc
    dependents_suc (suc fuel) jobs rows after e =
        follow-some (cancel_listed now jobs rows).0 (cancel_listed now jobs rows).1
          (cancel_each fuel now) (cancel_each (suc fuel) now) (cancel_dependents fuel now)
          (cancel_dependents (suc fuel) now) (each_suc fuel) (dependents_suc fuel) after e

    each_suc :
        (fuel : ℕ) (jobs : List ℕ) (rows after : List Job)
        → cancel_each fuel now jobs rows ≡ some after
        → cancel_each (suc fuel) now jobs rows ≡ some after
    each_suc zero jobs rows after e = cc
    each_suc (suc fuel) [] rows after e = e
    each_suc (suc fuel) (job ∷ jobs) rows after e =
        let (mid, first, rest) =
          and_then-some (cancel_queue fuel now (waiting_children job rows) rows)
            (cancel_each fuel now jobs) after e in
        some-and_then (cancel_queue (suc fuel) now (waiting_children job rows) rows)
          (cancel_each (suc fuel) now jobs) mid after
          (queue_suc fuel (waiting_children job rows) rows mid first)
          (each_suc fuel jobs mid after rest)

-- A value that a larger index keeps is the value at every larger index.
pub stays_some :
    (f : ℕ → Option (List Job)) (after : List Job)
    → ((n : ℕ) → f n ≡ some after → f (suc n) ≡ some after)
    → (n m : ℕ) → n ≤ m
    → f n ≡ some after
    → f m ≡ some after
stays_some f after step n zero h e = subst (λ k. f k ≡ some after) (omega arith) e
stays_some f after step n (suc m) h e = elim (split n m h) [
  | inl below ↦ step m (stays_some f after step n m below e)
  | inr here ↦ subst (λ k. f k ≡ some after) here e
]
  where
    split : (n m : ℕ) → n ≤ suc m → (n ≤ m) ⊎ (n ≡ suc m)
    split n m h = omega arith

module _ (now : ℕ) {fuel enough : ℕ} (h : fuel ≤ enough) {after : List Job} where
  pub cancel_queue-some :
      (queue : List ℕ) (rows : List Job)
      → cancel_queue fuel now queue rows ≡ some after
      → cancel_queue enough now queue rows ≡ some after
  cancel_queue-some queue rows =
      stays_some (λ n. cancel_queue n now queue rows) after (λ n. queue_suc now n queue rows after)
        fuel enough h

  pub cancel_dependents-some :
      (jobs : List ℕ) (rows : List Job)
      → cancel_dependents fuel now jobs rows ≡ some after
      → cancel_dependents enough now jobs rows ≡ some after
  cancel_dependents-some jobs rows =
      stays_some (λ n. cancel_dependents n now jobs rows) after
        (λ n. dependents_suc now n jobs rows after) fuel enough h

  pub cancel_each-some :
      (jobs : List ℕ) (rows : List Job)
      → cancel_each fuel now jobs rows ≡ some after
      → cancel_each enough now jobs rows ≡ some after
  cancel_each-some jobs rows =
      stays_some (λ n. cancel_each n now jobs rows) after (λ n. each_suc now n jobs rows after) fuel
        enough h
