-- ===== src/Queue/Enqueue/Errors.antt =====
-- The requests that `enqueue` refuses, and those that it does not.
use odoo_job_worker.Base.{ℕ, ◌≡◌, ◌⊎◌, some, or_none}
use odoo_job_worker.Job.{Job}
use odoo_job_worker.Queue.Defs.{Queue, find_active}
use odoo_job_worker.Queue.Enqueue.{Request, Surroundings, Result, ok}
use odoo_job_worker.Queue.Enqueue.Repeat.{IsValid, IsStorable}

-- Whether the call returns.
abbrev pub IsOk : Result (Queue × ℕ) → Type 0
IsOk r = (q : Queue) × (job : ℕ) × (r ≡ ok (q, job))

-- The checks on the arguments pass; and an active job holds the key, or the payload is encoded and the
-- parent, if one is given, stands.
abbrev pub IsAccepted : Surroundings → Request → Queue → Type 0
IsAccepted env req q =
    IsValid env req
    × (((job : Job) × (find_active (or_none req.identity_key) q.jobs ≡ some job))
        ⊎ IsStorable env req q)
