-- ===== src/Queue/Enqueue/Repeat.antt =====
-- Valid requests, and a second request with the same identity key.
use mathlib.Core.List.{append-nil}
use odoo_job_worker.Base.{
  ℕ, ◌+◌, ◌≡◌, true, false, Option, none, some, List, [], ◌∷◌, ◌++◌, str_eq, Bool-cases,
  Option-cases, inl, inr, is_dunder, truthy, or_none,
}
use odoo_job_worker.Job.{Job}
use odoo_job_worker.Queue.Defs.{Queue, find_active, index_refuses}
use odoo_job_worker.Queue.Enqueue.{
  Request, Surroundings, ok, eta_conflicts, new_job, parent_stands, create_job, enqueue,
}
use odoo_job_worker.Queue.Enqueue.Dedup.{find_active-none}

-- The checks on the arguments pass.
pub record IsValid (env : Surroundings) (req : Request) : Type 0 where
  pub named : str_eq req.payload.model "" ≡ false
  pub known : env.model_exists req.payload.model ≡ true
  pub callable : is_dunder req.payload.method ≡ false
  pub consistent : eta_conflicts req.eta req.scheduled_at ≡ false

-- What a valid request comes to, given what the search for its key found.
abbrev pub reuse_or_create : ℕ → Surroundings → Request → Queue → Option Job → Queue × ℕ
reuse_or_create now env req q (some job) = (q, job.id)
reuse_or_create now env req q none = (
  record {
    jobs = q.jobs ++ new_job now q.next_id env.company req ∷ [];
    next_id = q.next_id + 1;
    notifications = q.notifications + 1;
  },
  q.next_id,
)

-- The row of a request can be inserted: its payload is encoded, and its parent stands.
pub record IsStorable (env : Surroundings) (req : Request) (q : Queue) : Type 0 where
  pub encoded : env.encodes req.payload ≡ true
  pub stands : parent_stands req.parent_id q.jobs ≡ true

-- A search that finds nothing leaves the index nothing to refuse.
new_job-admitted :
    (now : ℕ) (company : Option ℕ) (req : Request) (q : Queue)
    → find_active (or_none req.identity_key) q.jobs ≡ none
    → index_refuses (new_job now q.next_id company req) q.jobs ≡ false
new_job-admitted now company req q fresh =
    unfold new_job in find_active-none (new_job now q.next_id company req) q.jobs fresh

-- A valid request whose key an active job holds gives this job, the queue unchanged.
pub enqueue_found :
    (now : ℕ) (env : Surroundings) (req : Request) (q : Queue) (job : Job)
    → IsValid env req
    → find_active (or_none req.identity_key) q.jobs ≡ some job
    → enqueue now env [] req q ≡ ok (q, job.id)
unfolding enqueue
enqueue_found now env req q job v found = rw (v.named, v.known, v.callable, v.consistent, found)

-- Where nothing else commits meanwhile, a valid request whose row can be inserted is not refused: it
-- gives the active job that holds its key, the queue unchanged, or else a new row at the end.
pub enqueue_valid :
    (now : ℕ) (env : Surroundings) (req : Request) (q : Queue)
    → IsValid env req
    → IsStorable env req q
    → enqueue now env [] req q
      ≡ ok (reuse_or_create now env req q (find_active (or_none req.identity_key) q.jobs))
unfolding enqueue create_job
enqueue_valid now env req q v h =
    elim (Option-cases (find_active (or_none req.identity_key) q.jobs)) [
      | inl fresh ↦ rw (
        v.named,
        v.known,
        v.callable,
        v.consistent,
        fresh,
        h.encoded,
        append-nil q.jobs,
        new_job-admitted now env.company req q fresh,
        h.stands,
      )
      | inr (job, found) ↦ rw (v.named, v.known, v.callable, v.consistent, found)
    ]

-- Where nothing else commits meanwhile, the row of a valid request that is not refused could be
-- inserted, if the search for its key found none.
pub enqueue_ok-IsStorable :
    (now : ℕ) (env : Surroundings) (req : Request) (q q' : Queue) (job : ℕ)
    → IsValid env req
    → find_active (or_none req.identity_key) q.jobs ≡ none
    → enqueue now env [] req q ≡ ok (q', job)
    → IsStorable env req q
unfolding enqueue create_job
enqueue_ok-IsStorable now env req q q' job v fresh e =
    let admitted = new_job-admitted now env.company req q fresh in
    elim (Bool-cases (env.encodes req.payload)) [
      | inr unknown ↦
          let failed = rw (v.named, v.known, v.callable, v.consistent, fresh, unknown) at e in cc
      | inl encoded ↦ elim (Bool-cases (parent_stands req.parent_id q.jobs)) [
        | inl stands ↦ record { encoded = encoded; stands = stands }
        | inr gone ↦ elim (Bool-cases (truthy (or_none req.identity_key))) [
          | inl keyed ↦
              let failed =
                rw
                  (
                    v.named,
                    v.known,
                    v.callable,
                    v.consistent,
                    fresh,
                    encoded,
                    append-nil q.jobs,
                    admitted,
                    gone,
                    keyed,
                    fresh,
                  )
                  at e in
              cc
          | inr plain ↦
              let failed =
                rw
                  (
                    v.named,
                    v.known,
                    v.callable,
                    v.consistent,
                    fresh,
                    encoded,
                    append-nil q.jobs,
                    admitted,
                    gone,
                    plain,
                  )
                  at e in
              cc
        ]
      ]
    ]
