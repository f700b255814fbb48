-- ===== src/System/Quiet.antt =====
-- The calls that make no row active and keep ids and settings.

use odoo_job_worker.Base.{
  ℕ, ◌≡◌, refl, Option, List, [], ◌∷◌, String, everywhere, Zip, Zip-map, Bool-cases, inl, inr,
  or_zero, ◌+◌, arith,
}
use odoo_job_worker.Job.{Job, with_id}
use odoo_job_worker.Graph.Children.{cancel, cascade_children_on_parent_success}
use odoo_job_worker.Graph.Children.Success.{
  SucceedsUnder, cascade_success-SucceedsUnder, everything-IsClosed,
}
use odoo_job_worker.Graph.Cancel.Settled.{Cancels}
use odoo_job_worker.Queue.Sound.{
  IsQuiet, IsQuiet-refl, Zip-IsQuiet-refl, Zip-IsQuiet-trans, update-IsQuiet,
}
use odoo_job_worker.Queue.Buttons.Keys.{release_dependents-IsQuiet}
use odoo_job_worker.Worker.Ownership.{
  beat, stamp_timeout, disown, update_heartbeats, heartbeat_job, handle_timeout,
  clear_worker_ownership,
}
use odoo_job_worker.Worker.Ownership.Guard.{
  Statement, beat_all, beat_one, time_out, release, run_statement,
}
use odoo_job_worker.Worker.Outcome.{
  Config, Raised, transient_registry, retryable, other, is_young, has_retries, after_exception,
  retry_after, fail_for_good, finalize_row, finalize_job,
}

Cancels-IsQuiet : (now : ℕ) (b a : Job) → Cancels now b a → IsQuiet b a
unfolding cancel
Cancels-IsQuiet now b a (inl e) = rw e (IsQuiet-refl b)
Cancels-IsQuiet now b a (inr e) = rw e (record { named = refl; same = refl; calms = λ h. cc })

pub Zip-Cancels-IsQuiet :
    (now : ℕ) (rows after : List Job) → Zip (Cancels now) rows after → Zip IsQuiet rows after
Zip-Cancels-IsQuiet now = Zip-map (Cancels-IsQuiet now)

SucceedsUnder-IsQuiet :
    (now job : ℕ) (b a : Job) → SucceedsUnder now job (λ _. Unit) b a → IsQuiet b a
SucceedsUnder-IsQuiet now job b a (inl e) = rw e (IsQuiet-refl b)
SucceedsUnder-IsQuiet now job b a (inr (inl (w, off, e))) =
    rw e (record { named = refl; same = refl; calms = λ h. ground arith })
SucceedsUnder-IsQuiet now job b a (inr (inr (p, d, w, e))) =
    rw e (record { named = refl; same = refl; calms = λ h. cc })

cascade_success-IsQuiet :
    (now job : ℕ) (rows : List Job)
    → Zip IsQuiet rows (cascade_children_on_parent_success now job rows)
cascade_success-IsQuiet now job rows = Zip-map (SucceedsUnder-IsQuiet now job) rows _ (
    cascade_success-SucceedsUnder now job (λ _. Unit) rows (everywhere _ (λ r w f. tt) rows)
      (everything-IsClosed now job rows))

finalize_row-IsQuiet :
    (now : ℕ) (result : Option String) (r : Job) → IsQuiet r (finalize_row now result r)
unfolding finalize_row
finalize_row-IsQuiet now result r = record { named = refl; same = refl; calms = λ h. cc }

pub finalize_job-IsQuiet :
    (now : ℕ) (result : Option String) (job : ℕ) (rows : List Job)
    → Zip IsQuiet rows (finalize_job now result job rows)
unfolding finalize_job
finalize_job-IsQuiet now result job rows =
    Zip-IsQuiet-trans rows _ _
      (update-IsQuiet (with_id job) _ (λ r h. finalize_row-IsQuiet now result r) rows)
      (Zip-IsQuiet-trans _ _ _ (cascade_success-IsQuiet now job _)
        (release_dependents-IsQuiet now (job ∷ []) _))

beat-IsQuiet : (now : ℕ) (r : Job) → IsQuiet r (beat now r)
unfolding beat
beat-IsQuiet now r = record { named = refl; same = refl; calms = λ h. h }

stamp_timeout-IsQuiet :
    (now ceiling timeout : ℕ) (r : Job) → IsQuiet r (stamp_timeout now ceiling timeout r)
unfolding stamp_timeout
stamp_timeout-IsQuiet now ceiling timeout r = record { named = refl; same = refl; calms = λ h. h }

disown-IsQuiet : (r : Job) → IsQuiet r (disown r)
unfolding disown
disown-IsQuiet r = record { named = refl; same = refl; calms = λ h. h }

pub run_statement-IsQuiet :
    (now worker ceiling : ℕ) (s : Statement) (rows : List Job)
    → Zip IsQuiet rows (run_statement now worker ceiling s rows)
unfolding run_statement update_heartbeats heartbeat_job handle_timeout clear_worker_ownership
run_statement-IsQuiet now worker ceiling (beat_all []) rows = Zip-IsQuiet-refl rows
run_statement-IsQuiet now worker ceiling (beat_all (job ∷ jobs)) rows =
    update-IsQuiet _ (beat now) (λ r h. beat-IsQuiet now r) rows
run_statement-IsQuiet now worker ceiling (beat_one job) rows =
    update-IsQuiet _ (beat now) (λ r h. beat-IsQuiet now r) rows
run_statement-IsQuiet now worker ceiling (time_out job timeout) rows =
    update-IsQuiet _ (stamp_timeout now ceiling timeout)
      (λ r h. stamp_timeout-IsQuiet now ceiling timeout r) rows
run_statement-IsQuiet now worker ceiling (release job) rows =
    update-IsQuiet _ disown (λ r h. disown-IsQuiet r) rows

-- An attempt that raised may put its job back among the active ones; its id and its settings stay.
pub after_exception_keeps :
    (c : Config) (now : ℕ) (text : String) (exc : Raised) (r : Job)
    → ((after_exception c now text exc r).id ≡ r.id)
      × ((after_exception c now text exc r).settings ≡ r.settings)
unfolding after_exception retry_after fail_for_good
after_exception_keeps c now text (transient_registry seconds) r =
    elim (Bool-cases (is_young now c.transient_registry_max_age_seconds r)) [
      | inl young ↦ rw young (refl, refl)
      | inr old ↦ rw old (refl, refl)
    ]
after_exception_keeps c now text (retryable seconds ignore_retry) r = (refl, refl)
after_exception_keeps c now text other r =
    elim (Bool-cases (has_retries r.max_retries (or_zero r.attempts + 1))) [
      | inl more ↦ rw more (refl, refl)
      | inr last ↦ rw last (refl, refl)
    ]
