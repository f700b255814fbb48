-- ===== src/Worker/Loop/Recovery.antt =====
-- The recovery of a worker as the supervisor sees it.
use odoo_job_worker.Base.{
  ℕ, ◌+◌, ◌≡◌, ◌≢◌, ◌≤◌, refl, ◌∙◌, not, ◌||◌, leb, ◌==◌, Bool, true, none, some, List, [], ◌∷◌,
  length, arith,
}
use odoo_job_worker.Worker.Loop.{Recovering, back_off}
use odoo_job_worker.Runner.{
  gate_overdue, recent_failures, since_long, Settings, Database, is_degraded,
}

-- Database errors at these times, oldest first, with no full cycle between them.
unfoldable pub fail_at : List ℕ → Recovering → Recovering
fail_at [] r = r
fail_at (now ∷ times) r = fail_at times (back_off now r).0

fail_at_since :
    (times : List ℕ) (r : Recovering) (t : ℕ)
    → r.started_at ≡ some t
    → (fail_at times r).started_at ≡ some t
unfolding fail_at back_off
fail_at_since [] r t e = e
fail_at_since (now ∷ times) r t e = fail_at_since times (back_off now r).0 t (rw e refl)

ends_true : (a b c d : Bool) → a || (b || (c || (d || true))) ≡ true
ends_true a b c d = ground arith

-- If a worker whose last cycle was healthy meets a database error at `first` and completes no cycle
-- after it, however many errors follow, then the supervisor finds its database degraded from
-- `first + database_unhealthy_after_seconds` on, where that setting is not 0.
pub stuck_worker_is_reported :
    (s : Settings) (first : ℕ) (times : List ℕ) (now : ℕ) (r : Recovering) (d : Database)
    → r.started_at ≡ none
    → d.recovering_since ≡ (fail_at (first ∷ times) r).started_at
    → s.database_unhealthy_after_seconds ≢ 0
    → first + s.database_unhealthy_after_seconds ≤ now
    → is_degraded s now d ≡ true
unfolding is_degraded fail_at back_off
stuck_worker_is_reported s first times now r d healthy seen on late =
    let since : d.recovering_since ≡ some first =
      seen ∙ fail_at_since times (back_off first r).0 first (rw healthy refl) in
    let past : leb (first + s.database_unhealthy_after_seconds) now ≡ true = ground arith in
    let set : not (s.database_unhealthy_after_seconds == 0) ≡ true = ground arith in
    rw (since, past, set)
      (ends_true d.quarantined (gate_overdue now d.gate)
        (leb s.maximum_consecutive_failures (length (recent_failures s now d.failures)))
        (since_long now s.database_unhealthy_after_seconds d.retrying_since))
