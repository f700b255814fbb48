-- ===== src/Monitor/Floats.antt =====
-- The floating point numbers of PostgreSQL and Python, which the monitor stores and compares.
use odoo_job_worker.Base.{ℕ, Bool, List}
use odoo_job_worker.Job.{Seconds}

-- `mean` and `percentile_95` are 0 on an empty list (`COALESCE(…, 0)`).
pub record Floats (D : Type 0) : Type 0 where
  pub nothing : D
  pub of_count : ℕ → D
  pub plus : D → D → D
  pub times : D → ℕ → D
  pub over : D → ℕ → D
  pub larger : D → D → D
  pub is_less : D → D → Bool
  pub is_at_most : D → D → Bool
  pub mean : List Seconds → D
  pub percentile_95 : List Seconds → D
