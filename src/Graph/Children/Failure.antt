-- ===== src/Graph/Children/Failure.antt =====
-- What the cascade of a failure does to the descendants of the failed job.
use odoo_job_worker.Base.{
  ℕ, suc, ◌≡◌, ◌⊎◌, inl, inr, true, false, some, List, [], ◌∷◌, Zip, Zip-both, Zip-map, Zip-at,
  get_elem?, arith,
}
use odoo_job_worker.Job.{Job, pending, failed, parent_failed, is_waiting, waits_on, waiting_count}
use odoo_job_worker.Graph.Walk.{walk}
use odoo_job_worker.Graph.Walk.Laws.{
  NoWaitingChild, IsClosed, Changes, walk_returns, walk_queue, walk-Leaves, walk-Changes,
}
use odoo_job_worker.Graph.Children.{fail_child, is_on_done, cascade_children_on_parent_failure}

pub fail_child_settles :
    (now parent : ℕ) (r : Job) → is_waiting (fail_child now parent r).state ≡ false
unfolding fail_child
fail_child_settles now parent r = ground arith

-- The loop of the cascade ends within one round for each waiting row and one for the job.
pub cascade_failure_returns :
    (now job : ℕ) (rows : List Job)
    → walk (fail_child now) is_on_done (suc (waiting_count rows)) (job ∷ []) rows
      ≡ some (cascade_children_on_parent_failure now job rows)
unfolding cascade_children_on_parent_failure
cascade_failure_returns now job rows =
    let (after, e) =
      walk_returns (fail_child now) is_on_done (fail_child_settles now) (suc (waiting_count rows))
        (job ∷ []) rows (omega arith) in
    rw e

-- What becomes of a row: nothing, or it waited on a parent `p` in `D`, and is now pending if it is
-- an on_error job, and otherwise failed for the failure of `p`.
abbrev pub FailsUnder : ℕ → (ℕ → Type 0) → Job → Job → Type 0
FailsUnder now D before after =
    (after ≡ before)
    ⊎ ((p : ℕ) × D p
        × (waits_on p before ≡ true)
        × ((before.run_on_failure ≡ true)
              × (after ≡ record before { state = pending; write_date = now })
            ⊎ (before.run_on_failure ≡ false)
              × (after ≡ record before {
                state = failed;
                exc_info = some (parent_failed p ∷ []);
                write_date = now;
              })))

fail_child-FailsUnder :
    (now : ℕ) (D : ℕ → Type 0) (before after : Job)
    → Changes (fail_child now) is_on_done (fail_child_settles now) D before after
    → FailsUnder now D before after
unfolding fail_child
fail_child-FailsUnder now D before after (inl e) = inl e
fail_child-FailsUnder now D before after (inr (p, d, w, e)) = inr (p, d, w, ground arith)

pub cascade_failure-FailsUnder :
    (now job : ℕ) (rows : List Job) (D : ℕ → Type 0)
    → D job
    → IsClosed (fail_child now) is_on_done (fail_child_settles now) D rows
    → Zip (FailsUnder now D) rows (cascade_children_on_parent_failure now job rows)
cascade_failure-FailsUnder now job rows D d c = Zip-map (fail_child-FailsUnder now D) rows _ (
    walk-Changes (fail_child now) is_on_done (fail_child_settles now) D (suc (waiting_count rows))
      (job ∷ []) rows (d, tt) c (cascade_failure_returns now job rows))

-- Let `D` be any set of jobs that holds the failed job and, with a job, the on_done jobs that wait
-- on it. After the cascade of the failure each row is as it was, or it waited on a parent in `D`
-- and is now pending if it is an on_error job, and otherwise failed, with the reason that names its
-- own parent.
pub cascade_failure_changes :
    (now job : ℕ) (rows : List Job) (D : ℕ → Type 0) (i : ℕ) (before after : Job)
    → D job
    → IsClosed (fail_child now) is_on_done (fail_child_settles now) D rows
    → get_elem? rows i ≡ some before
    → get_elem? (cascade_children_on_parent_failure now job rows) i ≡ some after
    → FailsUnder now D before after
cascade_failure_changes now job rows D i before after d c =
    Zip-at (FailsUnder now D) rows (cascade_children_on_parent_failure now job rows) i before after
      (cascade_failure-FailsUnder now job rows D d c)

-- A row that the cascade failed.
abbrev pub FailedLeaves : List Job → Job → Job → Type 0
FailedLeaves final before after =
    is_waiting before.state ≡ true → after.state ≡ failed → NoWaitingChild before.id final

failed-on_done :
    (now : ℕ) (before after : Job)
    → FailsUnder now (λ _. Unit) before after
    → is_waiting before.state ≡ true
    → after.state ≡ failed
    → (is_waiting after.state ≡ false) × (is_on_done before ≡ true)
failed-on_done now before after (inl e) w f = ground arith
failed-on_done now before after (inr (p, d, w', inl (on, e))) w f = ground arith
failed-on_done now before after (inr (p, d, w', inr (on, e))) w f = ground arith

pub everything-IsClosed :
    (now : ℕ) (rows : List Job)
    → IsClosed (fail_child now) is_on_done (fail_child_settles now) (λ _. Unit) rows
everything-IsClosed now [] = tt
everything-IsClosed now (r ∷ rows) = ((λ p w q d. tt), everything-IsClosed now rows)

pub cascade_failure-NoWaitingChild :
    (now job : ℕ) (rows : List Job)
    → NoWaitingChild job (cascade_children_on_parent_failure now job rows)
cascade_failure-NoWaitingChild now job rows =
    (walk_queue (fail_child now) is_on_done (fail_child_settles now) (suc (waiting_count rows))
      (job ∷ []) rows (cascade_failure_returns now job rows)).0

cascade_failure-FailedLeaves :
    (now job : ℕ) (rows : List Job)
    → let final = cascade_children_on_parent_failure now job rows in
      Zip (FailedLeaves final) rows final
cascade_failure-FailedLeaves now job rows =
    Zip-both
      (λ b a leaves change w f.
        let (left, on) = failed-on_done now b a change w f in leaves w left on)
      rows (cascade_children_on_parent_failure now job rows)
      (walk-Leaves (fail_child now) is_on_done (fail_child_settles now) (suc (waiting_count rows))
        (job ∷ []) rows (cascade_failure_returns now job rows))
      (cascade_failure-FailsUnder now job rows (λ _. Unit) tt (everything-IsClosed now rows))

-- If a row was waiting and has failed after the cascade of a failure, then no row is left waiting
-- on it, nor on the job whose failure was passed on: the chain is settled however deep it is.
pub cascade_failure_strands_none :
    (now job : ℕ) (rows : List Job) (i : ℕ) (before after : Job)
    → get_elem? rows i ≡ some before
    → get_elem? (cascade_children_on_parent_failure now job rows) i ≡ some after
    → is_waiting before.state ≡ true
    → after.state ≡ failed
    → NoWaitingChild job (cascade_children_on_parent_failure now job rows)
      × NoWaitingChild before.id (cascade_children_on_parent_failure now job rows)
cascade_failure_strands_none now job rows i before after e f w failed_after =
    let final = cascade_children_on_parent_failure now job rows in
    (
      cascade_failure-NoWaitingChild now job rows,
      Zip-at (FailedLeaves final) rows final i before after
          (cascade_failure-FailedLeaves now job rows) e f w failed_after,
    )
