-- ===== src/Examples/Runner.antt =====
-- A database in quarantine.
use odoo_job_worker.Base.{◌≡◌, ◌≤◌, refl, true, false, some, none, [], ◌∷◌, length, arith}
use odoo_job_worker.Runner.{Settings, Database, new_thread, expire_quarantine, check_thread_health}
use odoo_job_worker.Runner.Quarantine.{
  health, expiry, supervise, quarantine_ends, death_counted_once,
}

abbrev limits : Settings
limits = record {
  maximum_consecutive_failures = 2;
  failure_window_seconds = 300;
  database_unhealthy_after_seconds = 600;
}

abbrev quarantined : Database
quarantined = record {
  thread = some (record { alive = false; counted = true });
  failures = 10 ∷ 20 ∷ [];
  quarantined = true;
  gate = none;
  retrying_since = none;
  recovering_since = none;
}

quarantine_ends_example :
    check_thread_health limits 400 (expire_quarantine limits 400 quarantined) ≡ record quarantined {
      thread = some new_thread;
      failures = [];
      quarantined = false;
      recovering_since = none;
    }
quarantine_ends_example =
    quarantine_ends limits 400 quarantined refl refl (refl, (refl, tt)) (omega arith)

death_counted_once_example :
    length (supervise limits (health 30 ∷ expiry 60 ∷ health 400 ∷ []) quarantined).failures
    ≤ length quarantined.failures
death_counted_once_example =
    death_counted_once limits (health 30 ∷ expiry 60 ∷ health 400 ∷ []) quarantined refl
