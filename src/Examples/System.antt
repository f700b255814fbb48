-- ===== src/Examples/System.antt =====
-- A queue that several calls change in turn.
use odoo_job_worker.Base.{refl, false, some, none, [], ◌∷◌, arith}
use odoo_job_worker.Job.{failed}
use odoo_job_worker.Queue.{Queue}
use odoo_job_worker.Queue.Buttons.{button_requeue}
use odoo_job_worker.Worker.Acquire.{acquire_job_lock}
use odoo_job_worker.Worker.Outcome.{finalize_job}
use odoo_job_worker.System.{here, next, requeues, takes, finishes}
use odoo_job_worker.System.Sound.{IsConsistent, Reach-IsConsistent}
use odoo_job_worker.Examples.Rows.{settings, row}

-- A failed job with the key "sync", and an active one with another key.
abbrev before : Queue
before = record {
  jobs =
      row 1 failed (settings none none false (some "sync")) 0
      ∷ row 2 failed (settings none none false (some "report")) 0
      ∷ [];
  next_id = 3;
  notifications = 0;
}

before-IsConsistent : IsConsistent before
before-IsConsistent = (
  (((refl, tt), (tt, tt)), (refl, (refl, tt)), ((refl, tt), (tt, tt))),
  (omega arith, (omega arith, tt)),
)

-- Both are requeued, one is taken by worker 7 and finished.
abbrev requeued : Queue
requeued = button_requeue 4 (1 ∷ 2 ∷ []) before

abbrev taken : Queue
taken = record requeued { jobs = (acquire_job_lock 5 60 7 [] (λ k. false) requeued.jobs).0 }

abbrev finished : Queue
finished = record taken { jobs = finalize_job 6 none 1 taken.jobs }

Reach-IsConsistent_example : IsConsistent finished
Reach-IsConsistent_example =
    Reach-IsConsistent before finished
      (next
        (next (next here (requeues 4 (1 ∷ 2 ∷ []) before)) (takes 5 60 7 [] (λ k. false) requeued))
        (finishes 6 none 1 taken))
      before-IsConsistent
