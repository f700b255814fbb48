-- ===== src/Queue/Buttons/Requeue.antt =====
-- Identity keys of active rows under `button_requeue`.
use odoo_job_worker.Base.{
  ℕ, ◌≡◌, refl, Option, none, some, List, [], ◌∷◌, Bool-cases, inl, inr, All, ◌∙◌, arith,
}
use odoo_job_worker.Job.{Job, Settings, browse, HasUniqueIds}
use odoo_job_worker.Queue.Defs.{Queue, key_is_taken, HasUniqueKeys}
use odoo_job_worker.Queue.Sound.{HasStoredKeys, IsSound}
use odoo_job_worker.Queue.Sound.Revive.{write-IsSound, All-write}
use odoo_job_worker.Queue.Buttons.{reset, button_requeue, requeue_found}

pub reset_keeps :
    (now : ℕ) (r : Job) → ((reset now r).id ≡ r.id) × ((reset now r).settings ≡ r.settings)
unfolding reset
reset_keeps now r = (refl, refl)

requeue_found-IsSound :
    (now job : ℕ) (q : Queue) (found : Option Job)
    → browse job q.jobs ≡ found
    → IsSound q.jobs
    → IsSound (requeue_found now job found q).jobs
unfolding requeue_found
requeue_found-IsSound now job q none e g = g
requeue_found-IsSound now job q (some r) e g = elim (Bool-cases (key_is_taken r q.jobs)) [
  | inl taken ↦ rw taken g
  | inr free ↦ rw free (write-IsSound (reset now) (reset_keeps now) job r q.jobs e free g)
]

pub button_requeue-IsSound :
    (now : ℕ) (jobs : List ℕ) (q : Queue)
    → IsSound q.jobs
    → IsSound (button_requeue now jobs q).jobs
unfolding button_requeue
button_requeue-IsSound now [] q g = g
button_requeue-IsSound now (job ∷ jobs) q g =
    button_requeue-IsSound now jobs (requeue_found now job (browse job q.jobs) q)
      (requeue_found-IsSound now job q (browse job q.jobs) refl g)

requeue_found-All :
    (P : ℕ → Settings → Type 0) (now job : ℕ) (q : Queue) (found : Option Job)
    → All (λ r. P r.id r.settings) q.jobs
    → All (λ r. P r.id r.settings) (requeue_found now job found q).jobs
unfolding requeue_found
requeue_found-All P now job q none h = h
requeue_found-All P now job q (some r) h = elim (Bool-cases (key_is_taken r q.jobs)) [
  | inl taken ↦ rw taken h
  | inr free ↦ rw free (All-write (reset now) (reset_keeps now) P job q.jobs h)
]

requeue_found-next_id :
    (now job : ℕ) (q : Queue) (found : Option Job)
    → (requeue_found now job found q).next_id ≡ q.next_id
unfolding requeue_found
requeue_found-next_id now job q none = refl
requeue_found-next_id now job q (some r) = ground arith

-- What is said of the id and the settings of every row stays true, and no id is drawn.
pub button_requeue-All :
    (P : ℕ → Settings → Type 0) (now : ℕ) (jobs : List ℕ) (q : Queue)
    → All (λ r. P r.id r.settings) q.jobs
    → All (λ r. P r.id r.settings) (button_requeue now jobs q).jobs
unfolding button_requeue
button_requeue-All P now [] q h = h
button_requeue-All P now (job ∷ jobs) q h =
    button_requeue-All P now jobs (requeue_found now job (browse job q.jobs) q)
      (requeue_found-All P now job q (browse job q.jobs) h)

pub button_requeue-next_id :
    (now : ℕ) (jobs : List ℕ) (q : Queue) → (button_requeue now jobs q).next_id ≡ q.next_id
unfolding button_requeue
button_requeue-next_id now [] q = refl
button_requeue-next_id now (job ∷ jobs) q =
    button_requeue-next_id now jobs (requeue_found now job (browse job q.jobs) q)
    ∙ requeue_found-next_id now job q (browse job q.jobs)

-- Where ids are unique, keys are stored as `enqueue` stores them, and no two active rows share an
-- identity key, none do after `button_requeue`, however many jobs it is called on.
pub button_requeue-HasUniqueKeys :
    (now : ℕ) (jobs : List ℕ) (q : Queue)
    → HasUniqueIds q.jobs
    → HasStoredKeys q.jobs
    → HasUniqueKeys q.jobs
    → HasUniqueKeys (button_requeue now jobs q).jobs
button_requeue-HasUniqueKeys now jobs q u s k = (button_requeue-IsSound now jobs q (u, s, k)).2
