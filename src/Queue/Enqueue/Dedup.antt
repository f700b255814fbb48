-- ===== src/Queue/Enqueue/Dedup.antt =====
-- Identity keys of active rows under `enqueue`.

use odoo_job_worker.Base.{
  ℕ, ◌+◌, ◌≡◌, refl, subst, Bool, true, false, not, ◌&&◌, ◌||◌, Option, none, some, List, [], ◌∷◌,
  ◌++◌, str_eq, All, All-append, All-split, Bool-cases, Option-cases, inl, inr, is_dunder, truthy,
  or_none, same_text, same_text_sym, arith,
}
use odoo_job_worker.Job.{Job, is_active}
use odoo_job_worker.Queue.Defs.{Queue, holds_key, find_active, clash, index_refuses, HasUniqueKeys}
use odoo_job_worker.Queue.Enqueue.{
  Request, Surroundings, Result, ok, err, eta_conflicts, new_job, parent_stands, returned,
  create_job, enqueue,
}

pub index_admits :
    (r : Job) (rows : List Job) → index_refuses r rows ≡ false → All (λ s. clash s r ≡ false) rows
unfolding index_refuses
index_admits r [] h = tt
index_admits r (s ∷ rows) h = (
  ground (arith, same_text_sym r.identity_key s.identity_key),
  index_admits r rows (ground arith),
)

pub HasUniqueKeys-snoc :
    (rows : List Job) (r : Job)
    → HasUniqueKeys rows
    → All (λ s. clash s r ≡ false) rows
    → HasUniqueKeys (rows ++ r ∷ [])
HasUniqueKeys-snoc [] r u a = (tt, tt)
HasUniqueKeys-snoc (s ∷ rows) r u a = (
  All-append (λ t. clash s t ≡ false) rows (r ∷ []) u.0 (a.0, tt),
  HasUniqueKeys-snoc rows r u.1 a.1,
)

HasUniqueKeys-prefix : (xs ys : List Job) → HasUniqueKeys (xs ++ ys) → HasUniqueKeys xs
HasUniqueKeys-prefix [] ys u = tt
HasUniqueKeys-prefix (x ∷ xs) ys u =
    ((All-split (λ t. clash x t ≡ false) xs ys u.0).0, HasUniqueKeys-prefix xs ys u.1)

clash-holds_key : (r s : Job) → holds_key r.identity_key s ≡ false → clash r s ≡ false
clash-holds_key r s free = go (is_active r.state)
  where
    quiet : is_active s.state && same_text r.identity_key s.identity_key ≡ false
    quiet = rw (same_text_sym r.identity_key s.identity_key) free

    go : (b : Bool) → b && (is_active s.state && same_text r.identity_key s.identity_key) ≡ false
    go true = quiet
    go false = refl

-- A search that finds nothing leaves the index nothing to refuse.
pub find_active-none :
    (r : Job) (rows : List Job)
    → find_active r.identity_key rows ≡ none
    → index_refuses r rows ≡ false
unfolding index_refuses
find_active-none r [] h = refl
find_active-none r (s ∷ rows) h = elim (Bool-cases (holds_key r.identity_key s)) [
  | inl holds ↦ let found : some s ≡ none = rw holds at h in cc
  | inr free ↦ rw (clash-holds_key r s free) (find_active-none r rows (rw free at h))
]

-- What holds of the queue if the call returns.
abbrev pub OnOk : (Queue → ℕ → Type 0) → Result (Queue × ℕ) → Type 0
OnOk P (ok (q, job)) = P q job
OnOk P (err _) = Unit

returned-OnOk :
    (P : Queue → ℕ → Type 0) (q : Queue) (found : Option Job)
    → ((job : Job) → found ≡ some job → P q job.id)
    → OnOk P (returned q found)
returned-OnOk P q none h = tt
returned-OnOk P q (some job) h = h job refl

create_job-OnOk :
    (P : Queue → ℕ → Type 0) (now : ℕ) (env : Surroundings) (racing : List Job) (req : Request)
    (q : Queue)
    → ((job : Job)
        → find_active (or_none req.identity_key) (q.jobs ++ racing) ≡ some job
        → P (record q { jobs = q.jobs ++ racing }) job.id)
    → (index_refuses (new_job now q.next_id env.company req) (q.jobs ++ racing) ≡ false
        → P
            (record {
              jobs = (q.jobs ++ racing) ++ new_job now q.next_id env.company req ∷ [];
              next_id = q.next_id + 1;
              notifications = q.notifications + 1;
            })
            q.next_id)
    → OnOk P (create_job now env racing req q)
unfolding create_job
create_job-OnOk P now env racing req q old new =
    elim (Bool-cases (index_refuses (new_job now q.next_id env.company req) (q.jobs ++ racing))) [
      | inl refused ↦ elim (Bool-cases (truthy (or_none req.identity_key))) [
        | inl keyed ↦ rw (refused, keyed) (returned-OnOk P _ _ old)
        | inr plain ↦ rw (refused, plain) tt
      ]
      | inr admitted ↦ elim (Bool-cases (parent_stands req.parent_id (q.jobs ++ racing))) [
        | inl stands ↦ rw (admitted, stands) (new admitted)
        | inr gone ↦ elim (Bool-cases (truthy (or_none req.identity_key))) [
          | inl keyed ↦ rw (admitted, gone, keyed) (returned-OnOk P _ _ old)
          | inr plain ↦ rw (admitted, gone, plain) tt
        ]
      ]
    ]

-- The ways in which `enqueue` returns: the queue is as it was and the job is an active row with the
-- key; or the row with the key was committed by another transaction meanwhile; or it is a new row,
-- which neither the search nor the index found a rival for.
pub enqueue-OnOk :
    (P : Queue → ℕ → Type 0) (now : ℕ) (env : Surroundings) (racing : List Job) (req : Request)
    (q : Queue)
    → ((job : Job) → find_active (or_none req.identity_key) q.jobs ≡ some job → P q job.id)
    → ((job : Job)
        → find_active (or_none req.identity_key) (q.jobs ++ racing) ≡ some job
        → P (record q { jobs = q.jobs ++ racing }) job.id)
    → (index_refuses (new_job now q.next_id env.company req) (q.jobs ++ racing) ≡ false
        → P
            (record {
              jobs = (q.jobs ++ racing) ++ new_job now q.next_id env.company req ∷ [];
              next_id = q.next_id + 1;
              notifications = q.notifications + 1;
            })
            q.next_id)
    → OnOk P (enqueue now env racing req q)
unfolding enqueue
enqueue-OnOk P now env racing req q old raced new =
    elim (Bool-cases (str_eq req.payload.model "" || not (env.model_exists req.payload.model))) [
      | inl unknown ↦ rw unknown tt
      | inr known ↦ elim (Bool-cases (is_dunder req.payload.method)) [
        | inl dunder ↦ rw (known, dunder) tt
        | inr callable ↦ elim (Bool-cases (eta_conflicts req.eta req.scheduled_at)) [
          | inl clash ↦ rw (known, callable, clash) tt
          | inr fits ↦ elim (Option-cases (find_active (or_none req.identity_key) q.jobs)) [
            | inl fresh ↦ elim (Bool-cases (env.encodes req.payload)) [
              | inl encoded ↦
                  rw (known, callable, fits, fresh, encoded)
                    (create_job-OnOk P now env racing req q raced new)
              | inr unknown ↦ rw (known, callable, fits, fresh, unknown) tt
            ]
            | inr (job, found) ↦ rw (known, callable, fits, found) (old job found)
          ]
        ]
      ]
    ]

-- If no two active rows share an identity key, rows that other transactions commit meanwhile
-- included, then none do after `enqueue` returns.
pub enqueue-HasUniqueKeys :
    (now : ℕ) (env : Surroundings) (racing : List Job) (req : Request) (q : Queue) {q' : Queue}
    {job : ℕ}
    → HasUniqueKeys (q.jobs ++ racing)
    → enqueue now env racing req q ≡ ok (q', job)
    → HasUniqueKeys q'.jobs
enqueue-HasUniqueKeys now env racing req q u e = subst (OnOk (λ q _. HasUniqueKeys q.jobs)) e (
    enqueue-OnOk (λ q _. HasUniqueKeys q.jobs) now env racing req q
      (λ _ _. HasUniqueKeys-prefix q.jobs racing u) (λ _ _. u)
      (λ admitted.
        HasUniqueKeys-snoc (q.jobs ++ racing) (new_job now q.next_id env.company req) u
          (index_admits (new_job now q.next_id env.company req) (q.jobs ++ racing) admitted)))
