-- ===== src/Queue/Buttons/Cancel.antt =====
-- `button_cancelled`: the jobs are cancelled, and those that had not ended pass it on.
pub mod Selected
pub mod Cascade
use odoo_job_worker.Base.{
  and_then, ℕ, Bool, true, false, not, Option, none, some, List, [], ◌∷◌, if◌then◌else◌, keep_if,
}
use odoo_job_worker.Job.{Job, is_terminal, browse, write}
use odoo_job_worker.Graph.Children.{cancel}
use odoo_job_worker.Graph.Cancel.{cancel_each, cancel_dependents}
use odoo_job_worker.Queue.Defs.{key_is_taken}

-- The call returns; the constraint on identity keys refuses a write, which rolls the call back; or
-- the fuel ran out.
pub data Cancelling : Type 0 where
  cancelled_to : List Job → Cancelling
  refused : Cancelling
  unfinished : Cancelling

-- `job.write({"state": "cancelled", "cancelled_at": now})` under the constraint.
pub cancel_found : ℕ → ℕ → Option Job → List Job → Option (List Job)
cancel_found now job none rows = none
cancel_found now job (some r) rows =
    if key_is_taken r rows then none else some (write job (cancel now) rows)

unfoldable pub write_cancelled : ℕ → List ℕ → List Job → Option (List Job)
unfolding cancel_found
write_cancelled now [] rows = some rows
write_cancelled now (job ∷ jobs) rows =
    and_then (cancel_found now job (browse job rows) rows) (write_cancelled now jobs)

abbrev pub has_ended : ℕ → List Job → Bool
has_ended job rows = elim (browse job rows) [ none ↦ false | some r ↦ is_terminal r.state ]

-- `self - already_terminal`
abbrev pub cascading : List ℕ → List Job → List ℕ
cascading jobs rows = keep_if (λ job. not (has_ended job rows)) jobs

unfoldable pub pass_on : ℕ → ℕ → List ℕ → List Job → Option (List Job)
pass_on fuel now jobs rows =
    and_then (cancel_each fuel now jobs rows) (cancel_dependents fuel now jobs)

abbrev pub finished : Option (List Job) → Cancelling
finished none = unfinished
finished (some rows) = cancelled_to rows

abbrev pub after_writes : ℕ → ℕ → List ℕ → Option (List Job) → Cancelling
after_writes fuel now jobs none = refused
after_writes fuel now jobs (some written) = finished (pass_on fuel now jobs written)

unfoldable pub button_cancelled : ℕ → ℕ → List ℕ → List Job → Cancelling
button_cancelled fuel now jobs rows =
    after_writes fuel now (cascading jobs rows) (write_cancelled now jobs rows)
