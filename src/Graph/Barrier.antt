-- ===== src/Graph/Barrier.antt =====
-- `_release_dependents` and `_fail_dependents`: the end of a job is passed on to the jobs that list
-- it in `dependency_job_ids` (group barriers). Each is one UPDATE for each job of `self`.
-- The counter stops at 0 here, where the column would go below it.
pub mod Outcome
use odoo_job_worker.Base.{ℕ, ◌-◌, ◌&&◌, some, List, [], ◌∷◌, leb, if◌then◌else◌, update_if}
use odoo_job_worker.Job.{Job, pending, failed, cancelled, parent_failed, barred_by}

-- The SET clause of `_release_dependents`.
unfoldable pub release_row : ℕ → Job → Job
release_row now r =
    let left = r.pending_dependency_count - 1 in
    record r {
      pending_dependency_count = left;
      state =
          if leb left 0 && r.run_on_failure
          then cancelled
          else if leb left 0
          then pending
          else r.state;
      cancelled_at = if leb left 0 && r.run_on_failure then some now else r.cancelled_at;
      write_date = now;
    }

-- The SET clause of `_fail_dependents`.
unfoldable pub fail_row : ℕ → ℕ → Job → Job
fail_row now job r = record r {
  state = if r.run_on_failure then pending else failed;
  exc_info = if r.run_on_failure then r.exc_info else some (parent_failed job ∷ []);
  write_date = now;
}

unfoldable pub release_dependents_of : ℕ → ℕ → List Job → List Job
release_dependents_of now job rows = update_if (barred_by job) (release_row now) rows

unfoldable pub fail_dependents_of : ℕ → ℕ → List Job → List Job
fail_dependents_of now job rows = update_if (barred_by job) (fail_row now job) rows

-- `for job in self`
unfoldable pub release_dependents : ℕ → List ℕ → List Job → List Job
release_dependents now [] rows = rows
release_dependents now (job ∷ jobs) rows =
    release_dependents now jobs (release_dependents_of now job rows)

unfoldable pub fail_dependents : ℕ → List ℕ → List Job → List Job
fail_dependents now [] rows = rows
fail_dependents now (job ∷ jobs) rows = fail_dependents now jobs (fail_dependents_of now job rows)
