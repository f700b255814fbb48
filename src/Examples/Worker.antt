-- ===== src/Examples/Worker.antt =====
-- Taking, running, failing and reclaiming jobs.
use mathlib.Core.List.{Memᴰ}
use odoo_job_worker.Base.{
  ◌≡◌, ◌≤◌, refl, true, false, some, none, List, [], ◌∷◌, All, get_elem?, keep_if, arith, or_zero,
}
use odoo_job_worker.Job.{Job, waiting, pending, started, failed}
use odoo_job_worker.Worker.Acquire.{
  Limit, running_count, recent_starts_count, find_limit, concurrency_limit, is_eligible, precedes,
  pick, claim, acquire_job_lock, cascade_worker_death,
}
use odoo_job_worker.Worker.Acquire.Order.{is_open, acquire_takes_first}
use odoo_job_worker.Worker.Acquire.Limits.{acquire_within_limit}
use odoo_job_worker.Worker.Outcome.{Config}
use odoo_job_worker.Worker.Outcome.Budget.{
  IsTaken, raises, dies, attempt, attempts_of, retry_budget,
}
use odoo_job_worker.Worker.Outcome.Settled.{worker_death_strands_grandchild}
use odoo_job_worker.Examples.Rows.{plain, row, child, chain}

abbrev config : Config
config = record {
  worker_uuid = 77;
  max_backoff_seconds = 3600;
  registry_check_interval = 60;
  transient_registry_max_age_seconds = 900;
}

abbrev limits : List Limit
limits = record { name = "root"; limit = 2; rate_limit = none } ∷ []

-- Two pending jobs; the second is more urgent.
abbrev waiting_line : List Job
waiting_line = row 1 pending plain 0 ∷ row 2 pending (record plain { priority = 5 }) 0 ∷ []

acquire_within_limit_example :
    running_count 100 60
      (some "root")
      (acquire_job_lock 100 60 77 limits (λ k. false) waiting_line).0
    ≤ concurrency_limit (find_limit (some "root") limits)
unfolding running_count find_limit
acquire_within_limit_example =
    acquire_within_limit 100 60 (some "root") 77 limits (λ k. false) waiting_line
      ((refl, tt), (tt, tt)) (omega arith)

acquire_takes_first_example :
    (j : Job) × (j.id ≡ 2)
    × Memᴰ j waiting_line
    × (is_open 100 60 limits (λ k. false) waiting_line j ≡ true)
    × All
        (λ r. precedes r j ≡ false)
        (keep_if (is_open 100 60 limits (λ k. false) waiting_line) waiting_line)
unfolding acquire_job_lock pick claim is_eligible precedes running_count recent_starts_count
    find_limit
acquire_takes_first_example = acquire_takes_first 100 60 77 limits (λ k. false) waiting_line 2 refl

retry_budget_example :
    IsTaken (attempts_of config 100 (raises "boom" ∷ dies ∷ []) (row 1 pending plain 0)).state
    × (or_zero (attempts_of config 100 (raises "boom" ∷ dies ∷ []) (row 1 pending plain 0)).attempts
        ≡ 2)
    × ((attempt config 100
          (raises "boom")
          (attempts_of config 100 (raises "boom" ∷ dies ∷ []) (row 1 pending plain 0))).state
        ≡ failed)
retry_budget_example =
    retry_budget config 100 (row 1 pending plain 0) (raises "boom" ∷ dies ∷ []) (raises "boom") refl
      refl (λ e. omega (arith, e)) refl

-- A job whose last retry is used up.
abbrev last_try : Job
last_try = record (row 1 started plain 0) { attempts = some 2 }

worker_death_strands_grandchild_example :
    (after : Job) × (get_elem? (cascade_worker_death 9 1 chain) 1 ≡ some after)
    × (after.state ≡ failed)
    × (get_elem? (cascade_worker_death 9 1 chain) 2 ≡ some (child 2))
    × ((child 2).state ≡ waiting)
worker_death_strands_grandchild_example =
    worker_death_strands_grandchild 9 1 chain 1 2 (child 1) (child 2) refl refl refl refl refl refl
      refl
