-- ===== src/Examples/Overlap.antt =====
-- Two workers take two jobs of one channel at the same time.
use odoo_job_worker.Base.{◌+◌, ◌≡◌, ◌≤◌, ◌<◌, refl, false, some, none, List, [], ◌∷◌, arith, suc}
use odoo_job_worker.Job.{Job, pending}
use odoo_job_worker.Worker.Acquire.{
  Limit, running_count, recent_starts_count, find_limit, concurrency_limit, is_eligible, pick,
  precedes,
}
use odoo_job_worker.Worker.Acquire.Overlap.{overlap, overlap_exceeds_by_others}
use odoo_job_worker.Worker.Acquire.Overlap.Exceeds.{overlap_exceeds}
use odoo_job_worker.Examples.Rows.{plain, row}

abbrev limits : List Limit
limits = record { name = "root"; limit = 1; rate_limit = none } ∷ []

abbrev line : List Job
line = row 1 pending plain 0 ∷ row 2 pending plain 0 ∷ []

overlap_exceeds_by_others_example :
    running_count 100 60 (some "root") (overlap 100 60 limits line (λ k. false) (7 ∷ 8 ∷ []) line)
    ≤ concurrency_limit (find_limit (some "root") limits) + 1
unfolding running_count find_limit
overlap_exceeds_by_others_example =
    overlap_exceeds_by_others 100 60 (some "root") limits (λ k. false) 7 (8 ∷ []) line
      ((refl, tt), (tt, tt)) (omega arith)

overlap_exceeds_example :
    (running_count 100 60 (some "root") (overlap 100 60 limits line (λ k. false) (7 ∷ 8 ∷ []) line)
      ≡ running_count 100 60 (some "root") line + 2)
    × (concurrency_limit (find_limit (some "root") limits)
          ≡ suc (running_count 100 60 (some "root") line)
        → concurrency_limit (find_limit (some "root") limits)
          < running_count 100 60
              (some "root")
              (overlap 100 60 limits line (λ k. false) (7 ∷ 8 ∷ []) line))
unfolding pick is_eligible precedes running_count recent_starts_count find_limit
overlap_exceeds_example =
    overlap_exceeds 100 60 (some "root") limits (λ k. false) 7 8 (row 1 pending plain 0)
      (row 2 pending plain 0) line (omega arith) ((refl, tt), (tt, tt)) refl refl (refl, refl)
      (refl, refl)
