-- ===== src/Worker/Outcome/Settled.antt =====
-- What the end of a job leaves waiting on it.
use odoo_job_worker.Base.{
  ℕ, ◌≡◌, true, false, Option, some, List, [], ◌∷◌, String, All, get_elem?, get_elem?-update_if,
  if◌then◌else◌, arith,
}
use odoo_job_worker.Job.{Job, waiting, failed, waits_on, barred_by, write}
use odoo_job_worker.Graph.Walk.Laws.{NoWaitingChild}
use odoo_job_worker.Graph.Children.{
  cascade_children_on_parent_failure, cascade_children_on_parent_success,
}
use odoo_job_worker.Graph.Children.Failure.{cascade_failure-NoWaitingChild}
use odoo_job_worker.Graph.Children.Success.{cascade_success-NoWaitingChild}
use odoo_job_worker.Graph.Barrier.{
  release_row, fail_row, release_dependents_of, fail_dependents_of, release_dependents,
  fail_dependents,
}
use odoo_job_worker.Worker.Acquire.{fail_orphan, cascade_worker_death}
use odoo_job_worker.Worker.Outcome.{
  Config, Raised, after_exception, ends_job, cascade_failure_to_dependents, handle_exception,
  finalize_row, finalize_job,
}

-- No barrier waits on this job.
abbrev pub NoBarrier : ℕ → List Job → Type 0
NoBarrier job rows = All (λ r. barred_by job r ≡ false) rows

pub fail_dependents-NoBarrier :
    (now job : ℕ) (rows : List Job) → NoBarrier job (fail_dependents_of now job rows)
unfolding fail_dependents_of fail_row
fail_dependents-NoBarrier now job [] = tt
fail_dependents-NoBarrier now job (r ∷ rows) =
    (ground arith, fail_dependents-NoBarrier now job rows)

pub fail_dependents-NoWaitingChild :
    (now job other : ℕ) (rows : List Job)
    → NoWaitingChild other rows
    → NoWaitingChild other (fail_dependents_of now job rows)
unfolding fail_dependents_of fail_row
fail_dependents-NoWaitingChild now job other [] h = tt
fail_dependents-NoWaitingChild now job other (r ∷ rows) h =
    (ground arith, fail_dependents-NoWaitingChild now job other rows h.1)

pub release_dependents-NoWaitingChild :
    (now job other : ℕ) (rows : List Job)
    → NoWaitingChild other rows
    → NoWaitingChild other (release_dependents_of now job rows)
unfolding release_dependents_of release_row
release_dependents-NoWaitingChild now job other [] h = tt
release_dependents-NoWaitingChild now job other (r ∷ rows) h =
    (ground arith, release_dependents-NoWaitingChild now job other rows h.1)

-- When `handle_exception` fails a job for good, no child and no barrier is left waiting on it.
pub handle_exception_strands_none :
    (c : Config) (now : ℕ) (text : String) (exc : Raised) (job : Job) (rows : List Job)
    → ends_job c now exc job ≡ true
    → NoWaitingChild job.id (handle_exception c now text exc job rows)
      × NoBarrier job.id (handle_exception c now text exc job rows)
unfolding handle_exception cascade_failure_to_dependents fail_dependents
handle_exception_strands_none c now text exc job rows ends =
    let written = write job.id (after_exception c now text exc) rows in
    let cascaded = cascade_children_on_parent_failure now job.id written in
    rw ends (
      fail_dependents-NoWaitingChild now job.id job.id cascaded
          (cascade_failure-NoWaitingChild now job.id written),
      fail_dependents-NoBarrier now job.id cascaded,
    )

-- When a job is finalized, no child is left waiting on it.
pub finalize_job_strands_no_child :
    (now : ℕ) (result : Option String) (job : ℕ) (rows : List Job)
    → NoWaitingChild job (finalize_job now result job rows)
unfolding finalize_job release_dependents
finalize_job_strands_no_child now result job rows =
    let written = write job (finalize_row now result) rows in
    release_dependents-NoWaitingChild now job job
      (cascade_children_on_parent_success now job written)
      (cascade_success-NoWaitingChild now job written)

fail_orphan_twice :
    (now job : ℕ) (rows : List Job) (i : ℕ) (r : Job)
    → get_elem? rows i ≡ some r
    → get_elem? (cascade_worker_death now job rows) i
      ≡ some (
          let s = (if waits_on job r then fail_orphan now job r else r) in
          if barred_by job s then fail_orphan now job s else s)
unfolding cascade_worker_death
fail_orphan_twice now job rows i r e =
    get_elem?-update_if (barred_by job) (fail_orphan now job) _ i _
      (get_elem?-update_if (waits_on job) (fail_orphan now job) rows i r e)

fail_orphan_settles : (now job : ℕ) (r : Job) → barred_by job (fail_orphan now job r) ≡ false
unfolding fail_orphan
fail_orphan_settles now job r = ground arith

fail_orphan_fails :
    (now job : ℕ) (r : Job) → r.run_on_failure ≡ false → (fail_orphan now job r).state ≡ failed
unfolding fail_orphan
fail_orphan_fails now job r h = ground arith

-- The cascade of the reclaim path goes one step deep: an on_done child of the job that died fails,
-- and a job that waits on that child, but not on the dead job itself, is left waiting on a job
-- that will never run.
pub worker_death_strands_grandchild :
    (now job : ℕ) (rows : List Job) (i j : ℕ) (child grandchild : Job)
    → get_elem? rows i ≡ some child
    → get_elem? rows j ≡ some grandchild
    → waits_on job child ≡ true
    → child.run_on_failure ≡ false
    → waits_on child.id grandchild ≡ true
    → waits_on job grandchild ≡ false
    → barred_by job grandchild ≡ false
    → (after : Job) × (get_elem? (cascade_worker_death now job rows) i ≡ some after)
      × (after.state ≡ failed)
      × (get_elem? (cascade_worker_death now job rows) j ≡ some grandchild)
      × (grandchild.state ≡ waiting)
worker_death_strands_grandchild now job rows i j child grandchild at_i at_j w on_done below apart
      free =
    (
      fail_orphan now job child,
      rw (fail_orphan_twice now job rows i child at_i, w, fail_orphan_settles now job child),
      fail_orphan_fails now job child on_done,
      rw (fail_orphan_twice now job rows j grandchild at_j, apart, free),
      ground arith,
    )
