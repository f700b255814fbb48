-- ===== src/Queue/Buttons/Keys.antt =====
-- Identity keys of active rows under the cascades of jobs and barriers.
use odoo_job_worker.Base.{ℕ, ◌≡◌, refl, true, List, [], ◌∷◌, Zip, Zip-map, inl, inr, arith}
use odoo_job_worker.Job.{Job, barred_by}
use odoo_job_worker.Graph.Children.{cascade_children_on_parent_failure}
use odoo_job_worker.Graph.Children.Failure.{
  FailsUnder, cascade_failure-FailsUnder, everything-IsClosed,
}
use odoo_job_worker.Graph.Barrier.{
  release_row, fail_row, release_dependents_of, fail_dependents_of, release_dependents,
  fail_dependents,
}
use odoo_job_worker.Queue.Defs.{HasUniqueKeys}
use odoo_job_worker.Queue.Sound.{
  IsQuiet, IsQuiet-refl, Zip-IsQuiet-refl, Zip-IsQuiet-trans, update-IsQuiet, HasUniqueKeys-IsQuiet,
}

pub FailsUnder-IsQuiet :
    (now : ℕ) (before after : Job) → FailsUnder now (λ _. Unit) before after → IsQuiet before after
FailsUnder-IsQuiet now before after (inl e) = rw e (IsQuiet-refl before)
FailsUnder-IsQuiet now before after (inr (p, d, w, inl (on, e))) =
    rw e (record { named = refl; same = refl; calms = λ a. ground arith })
FailsUnder-IsQuiet now before after (inr (p, d, w, inr (off, e))) =
    rw e (record { named = refl; same = refl; calms = λ a. cc })

pub cascade_failure-IsQuiet :
    (now job : ℕ) (rows : List Job)
    → Zip IsQuiet rows (cascade_children_on_parent_failure now job rows)
cascade_failure-IsQuiet now job rows =
    Zip-map (FailsUnder-IsQuiet now) rows _
      (cascade_failure-FailsUnder now job rows (λ _. Unit) tt (everything-IsClosed now rows))

pub cascade_failure-HasUniqueKeys :
    (now job : ℕ) (rows : List Job)
    → HasUniqueKeys rows
    → HasUniqueKeys (cascade_children_on_parent_failure now job rows)
cascade_failure-HasUniqueKeys now job rows =
    HasUniqueKeys-IsQuiet rows _ (cascade_failure-IsQuiet now job rows)

release_row-IsQuiet :
    (now job : ℕ) (r : Job) → barred_by job r ≡ true → IsQuiet r (release_row now r)
unfolding release_row
release_row-IsQuiet now job r h = record { named = refl; same = refl; calms = λ a. ground arith }

fail_row-IsQuiet : (now job : ℕ) (r : Job) → barred_by job r ≡ true → IsQuiet r (fail_row now job r)
unfolding fail_row
fail_row-IsQuiet now job r h = record { named = refl; same = refl; calms = λ a. ground arith }

pub release_dependents-IsQuiet :
    (now : ℕ) (jobs : List ℕ) (rows : List Job)
    → Zip IsQuiet rows (release_dependents now jobs rows)
unfolding release_dependents release_dependents_of
release_dependents-IsQuiet now [] rows = Zip-IsQuiet-refl rows
release_dependents-IsQuiet now (job ∷ jobs) rows =
    Zip-IsQuiet-trans rows _ _
      (update-IsQuiet (barred_by job) (release_row now) (release_row-IsQuiet now job) rows)
      (release_dependents-IsQuiet now jobs _)

pub fail_dependents-IsQuiet :
    (now : ℕ) (jobs : List ℕ) (rows : List Job) → Zip IsQuiet rows (fail_dependents now jobs rows)
unfolding fail_dependents fail_dependents_of
fail_dependents-IsQuiet now [] rows = Zip-IsQuiet-refl rows
fail_dependents-IsQuiet now (job ∷ jobs) rows =
    Zip-IsQuiet-trans rows _ _
      (update-IsQuiet (barred_by job) (fail_row now job) (fail_row-IsQuiet now job) rows)
      (fail_dependents-IsQuiet now jobs _)

pub release_dependents-HasUniqueKeys :
    (now : ℕ) (jobs : List ℕ) (rows : List Job)
    → HasUniqueKeys rows
    → HasUniqueKeys (release_dependents now jobs rows)
release_dependents-HasUniqueKeys now jobs rows =
    HasUniqueKeys-IsQuiet rows _ (release_dependents-IsQuiet now jobs rows)

pub fail_dependents-HasUniqueKeys :
    (now : ℕ) (jobs : List ℕ) (rows : List Job)
    → HasUniqueKeys rows
    → HasUniqueKeys (fail_dependents now jobs rows)
fail_dependents-HasUniqueKeys now jobs rows =
    HasUniqueKeys-IsQuiet rows _ (fail_dependents-IsQuiet now jobs rows)
