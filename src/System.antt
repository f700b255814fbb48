-- ===== src/System.antt =====
-- The queue as a whole: what users, workers and the autovacuum do to it, one call or one statement
-- at a time, in any order. `run_now`, which runs jobs in the transaction of its caller, and the
-- stamps of the stall watchdog, which write `exc_info` only, are no steps here.
mod Quiet
mod Takes
pub mod Sound
use odoo_job_worker.Base.{ℕ, ◌≡◌, ◌<◌, Bool, false, Option, some, List, [], String, length}
use odoo_job_worker.Job.{Job, browse}
use odoo_job_worker.Queue.{Queue, key_is_taken}
use odoo_job_worker.Queue.Enqueue.{Request, Surroundings, enqueue, ok}
use odoo_job_worker.Queue.Buttons.{
  button_requeue, button_set_to_done, button_set_to_failed, gc_loop, chunk_size,
}
use odoo_job_worker.Queue.Buttons.Cancel.{button_cancelled, cancelled_to}
use odoo_job_worker.Worker.Acquire.{Limit, acquire_job_lock}
use odoo_job_worker.Worker.Ownership.Guard.{Statement, run_statement}
use odoo_job_worker.Worker.Outcome.{Config, Raised, handle_exception, finalize_job}

-- `raises` has the ORM's check of `_check_identity_key_state_unique` as a condition: the write of a
-- row that fails it is rolled back. The other statements of a worker are SQL, or write a state that
-- is not active.
pub data Step : Queue → Queue → Type 0 where
  enqueues :
      (now : ℕ) (env : Surroundings) (req : Request) {q q' : Queue} {job : ℕ}
      → enqueue now env [] req q ≡ ok (q', job)
      → Step q q'
  requeues : (now : ℕ) (jobs : List ℕ) (q : Queue) → Step q (button_requeue now jobs q)
  sets_done :
      (now : ℕ) (jobs : List ℕ) (q : Queue) {rows : List Job}
      → button_set_to_done now jobs q.jobs ≡ some rows
      → Step q (record q { jobs = rows })
  sets_failed :
      (now : ℕ) (jobs : List ℕ) (q : Queue) {rows : List Job}
      → button_set_to_failed now jobs q.jobs ≡ some rows
      → Step q (record q { jobs = rows })
  cancels :
      (fuel now : ℕ) (jobs : List ℕ) (q : Queue) {rows : List Job}
      → button_cancelled fuel now jobs q.jobs ≡ cancelled_to rows
      → Step q (record q { jobs = rows })
  vacuums :
      (fuel cutoff : ℕ) (q : Queue) {rows : List Job}
      → length q.jobs < fuel
      → gc_loop fuel chunk_size cutoff q.jobs ≡ some rows
      → Step q (record q { jobs = rows })
  takes :
      (now stale worker : ℕ) (limits : List Limit) (locked : ℕ → Bool) (q : Queue)
      → Step q (record q { jobs = (acquire_job_lock now stale worker limits locked q.jobs).0 })
  runs :
      (now worker ceiling : ℕ) (s : Statement) (q : Queue)
      → Step q (record q { jobs = run_statement now worker ceiling s q.jobs })
  raises :
      (c : Config) (now : ℕ) (text : String) (exc : Raised) (job : Job) (q : Queue)
      → browse job.id q.jobs ≡ some job
      → key_is_taken job q.jobs ≡ false
      → Step q (record q { jobs = handle_exception c now text exc job q.jobs })
  finishes :
      (now : ℕ) (result : Option String) (job : ℕ) (q : Queue)
      → Step q (record q { jobs = finalize_job now result job q.jobs })

-- The queues that come of one by any number of steps.
pub data Reach (s : Queue) : Queue → Type 0 where
  here : Reach s s
  next : {t u : Queue} → Reach s t → Step t u → Reach s u
