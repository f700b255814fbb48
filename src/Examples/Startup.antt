-- ===== src/Examples/Startup.antt =====
-- A registry load that keeps failing.
use odoo_job_worker.Base.{ℕ, ◌≡◌, refl, true, false, some, none, [], ◌∷◌, arith}
use odoo_job_worker.Runner.{Settings, Database, available, unavailable}
use odoo_job_worker.Runner.Supervise.{is_fresh, Pass, Supervisor, supervise}
use odoo_job_worker.Runner.Supervise.Health.{failing_load_fails_healthcheck}

abbrev watch : Settings
watch = record {
  maximum_consecutive_failures = 5;
  failure_window_seconds = 300;
  database_unhealthy_after_seconds = 600;
}

abbrev failing : Database
failing = record {
  thread = some (record { alive = true; counted = false });
  failures = [];
  quarantined = false;
  gate = none;
  retrying_since = some 10;
  recovering_since = none;
}

abbrev healthy : Database
healthy = record failing { retrying_since = none }

abbrev pass : ℕ → Pass
pass now = record {
  at_time = now;
  meanwhile = (λ ds. ds);
  stopping = false;
  stalled = false;
  found = available true ∷ unavailable ∷ [];
  writable = true;
}

abbrev supervisor : Supervisor
supervisor = record { databases = healthy ∷ failing ∷ []; last_discovery = 0; file = none }

failing_load_fails_healthcheck_example :
    is_fresh 90 700 (supervise watch 60 (pass 20 ∷ pass 609 ∷ pass 650 ∷ []) supervisor).file
    ≡ false
failing_load_fails_healthcheck_example =
    failing_load_fails_healthcheck watch 60 1 10 90 700 (pass 20 ∷ pass 609 ∷ pass 650 ∷ [])
      supervisor (λ e. omega (arith, e)) ((λ ds h. h), ((λ ds h. h), ((λ ds h. h), tt))) refl tt
      (omega arith)
