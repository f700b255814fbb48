-- ===== src/Graph/Cancel.antt =====
-- `_cancel_dependents` and `_cascade_children_on_parent_cancelled`: a cancelled job cancels whatever
-- waits on it, over both axes. Each call and each round of a loop takes one unit of fuel; `none`
-- means that the fuel ran out.
pub mod Fuel
pub mod Ends
pub mod Total
pub mod Settled
pub mod Passes
pub mod Strands
pub mod Spares
use odoo_job_worker.Base.{
  and_then, ℕ, zero, suc, Bool, Option, none, some, List, [], ◌∷◌, ◌++◌, update_if, if◌then◌else◌,
}
use odoo_job_worker.Job.{Job, waits_on, barred_by, write}
use odoo_job_worker.Graph.Children.{cancel}

-- The ids of the rows that meet a test.
unfoldable pub ids_of : (Job → Bool) → List Job → List ℕ
ids_of p [] = []
ids_of p (r ∷ rows) = let rest = ids_of p rows in if p r then r.id ∷ rest else rest

-- `job.child_ids.filtered(lambda c: c.state == "waiting")`
unfoldable pub waiting_children : ℕ → List Job → List ℕ
unfolding ids_of
waiting_children job rows = ids_of (waits_on job) rows

-- The statements of `_cancel_dependents`, one for each job, and the ids that they return.
unfoldable pub cancel_listed : ℕ → List ℕ → List Job → List Job × List ℕ
unfolding ids_of
cancel_listed now [] rows = (rows, [])
cancel_listed now (job ∷ jobs) rows =
    let (after, ids) = cancel_listed now jobs (update_if (barred_by job) (cancel now) rows) in
    (after, ids_of (barred_by job) rows ++ ids)

abbrev pub Pass : Type 0
Pass = List ℕ → List Job → Option (List Job)

-- What `_cancel_dependents` does with the rows that its statements cancelled: nothing if there are
-- none; otherwise it passes the cancellation on to their children, then to their dependents.
abbrev pub follow : List Job → List ℕ → Pass → Pass → Option (List Job)
follow listed [] each next = some listed
follow listed (job ∷ rest) each next = and_then (each (job ∷ rest) listed) (next (job ∷ rest))

unfoldable mutual
  -- The loop of `_cascade_children_on_parent_cancelled`.
  pub cancel_queue : ℕ → ℕ → List ℕ → List Job → Option (List Job)
  cancel_queue zero now queue rows = none
  cancel_queue (suc fuel) now [] rows = some rows
  cancel_queue (suc fuel) now (job ∷ queue) rows =
      let written = write job (cancel now) rows in
      and_then (cancel_dependents fuel now (job ∷ []) written)
        (cancel_queue fuel now (queue ++ waiting_children job written))

  pub cancel_dependents : ℕ → ℕ → List ℕ → List Job → Option (List Job)
  cancel_dependents zero now jobs rows = none
  cancel_dependents (suc fuel) now jobs rows =
      let (listed, ids) = cancel_listed now jobs rows in
      follow listed ids (cancel_each fuel now) (cancel_dependents fuel now)

  -- `for job in newly: job._cascade_children_on_parent_cancelled()`
  pub cancel_each : ℕ → ℕ → List ℕ → List Job → Option (List Job)
  cancel_each zero now jobs rows = none
  cancel_each (suc fuel) now [] rows = some rows
  cancel_each (suc fuel) now (job ∷ jobs) rows =
      and_then (cancel_queue fuel now (waiting_children job rows) rows) (cancel_each fuel now jobs)
