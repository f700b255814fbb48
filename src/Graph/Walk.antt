-- ===== src/Graph/Walk.antt =====
-- The breadth-first walk that the cascades over `parent_id` share. One round takes a job from the
-- head of the queue, settles the children that wait on it, and queues those among them that will
-- never run. Each child row is written once in a round, so a round is one pass over the rows.
-- The children of a job stand in the order of the list, in the source in that of `child_ids`.
pub mod Laws
use odoo_job_worker.Base.{
  ℕ, zero, suc, Bool, ◌&&◌, Option, none, some, List, [], ◌∷◌, ◌++◌, update_if, if◌then◌else◌,
}
use odoo_job_worker.Job.{Job, waits_on}

module _ (settle : ℕ → Job → Job) (pushes : Job → Bool) where
  unfoldable pub sweep : ℕ → List Job → List Job
  sweep parent rows = update_if (waits_on parent) (settle parent) rows

  unfoldable pub pushed : ℕ → List Job → List ℕ
  pushed parent [] = []
  pushed parent (r ∷ rows) =
      let rest = pushed parent rows in if waits_on parent r && pushes r then r.id ∷ rest else rest

  unfoldable pub walk : ℕ → List ℕ → List Job → Option (List Job)
  walk fuel [] rows = some rows
  walk zero (job ∷ queue) rows = none
  walk (suc fuel) (job ∷ queue) rows = walk fuel (queue ++ pushed job rows) (sweep job rows)
