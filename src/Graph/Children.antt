-- ===== src/Graph/Children.antt =====
-- `_cascade_children_on_parent_success` and `_cascade_children_on_parent_failure`: the end of a job
-- is passed on to the jobs that wait on it as their parent. The fuel of the loop is one round for
-- the job itself and one for each waiting row.
pub mod Failure
pub mod Success
pub mod Returns
use odoo_job_worker.Base.{ℕ, suc, Bool, true, not, some, List, [], ◌∷◌, if◌then◌else◌, or_else}
use odoo_job_worker.Job.{Job, pending, failed, cancelled, parent_failed, waiting_count}
use odoo_job_worker.Graph.Walk.{sweep, pushed, walk}

-- `child.state = "pending"`
unfoldable pub promote : ℕ → Job → Job
promote now r = record r { state = pending; write_date = now }

-- `child.write({"state": "cancelled", "cancelled_at": now})`
unfoldable pub cancel : ℕ → Job → Job
cancel now r = record r { state = cancelled; cancelled_at = some now; write_date = now }

-- The body of both loops over children in the cascade of a failure.
unfoldable pub fail_child : ℕ → ℕ → Job → Job
unfolding promote
fail_child now parent r =
    if r.run_on_failure
    then promote now r
    else record r { state = failed; exc_info = some (parent_failed parent ∷ []); write_date = now }

abbrev pub is_on_done : Job → Bool
is_on_done r = not r.run_on_failure

unfoldable pub cascade_children_on_parent_failure : ℕ → ℕ → List Job → List Job
cascade_children_on_parent_failure now job rows =
    or_else (walk (fail_child now) is_on_done (suc (waiting_count rows)) (job ∷ []) rows) rows

-- The first loop of the cascade of a success.
unfoldable pub release_child : ℕ → ℕ → Job → Job
unfolding promote cancel
release_child now parent r = if r.run_on_failure then cancel now r else promote now r

abbrev pub is_on_error : Job → Bool
is_on_error r = r.run_on_failure

-- The second loop, which cancels whatever waits on a cancelled job.
unfoldable pub cancel_child : ℕ → ℕ → Job → Job
unfolding cancel
cancel_child now parent r = cancel now r

abbrev pub always : Job → Bool
always r = true

unfoldable pub cascade_children_on_parent_success : ℕ → ℕ → List Job → List Job
cascade_children_on_parent_success now job rows =
    or_else
      (walk (cancel_child now) always (suc (waiting_count rows))
        (pushed (release_child now) is_on_error job rows)
        (sweep (release_child now) is_on_error job rows))
      (sweep (release_child now) is_on_error job rows)
