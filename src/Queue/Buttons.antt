-- ===== src/Queue/Buttons.antt =====
-- What the user does to jobs: `button_requeue`, `button_set_to_done`, `button_set_to_failed`, and
-- the autovacuum `_gc_old_jobs`. A write whose row fails `_check_identity_key_state_unique` raises
-- `ValidationError`, which rolls the call back: the result is then `none`. Where a row is deleted
-- the database sets `parent_id` of its children to NULL; here they keep the id of a row that is
-- gone, which no operation tells from NULL.
pub mod Vacuum
pub mod Keys
pub mod Requeue
pub mod Ended
pub mod Cancel
use odoo_job_worker.Base.{
  ℕ, zero, suc, ◌+◌, ◌-◌, Bool, true, false, not, ◌&&◌, ◌||◌, Option, none, some, List, [], ◌∷◌,
  ◌++◌, ◌==◌, leb, ltb, if◌then◌else◌, is_some, truthy, keep_if, and_then,
}
use odoo_job_worker.Job.{
  Job, Seconds, seconds_between, State, pending, done, failed, is_terminal, is_done, browse, write,
}
use odoo_job_worker.Graph.Children.{cascade_children_on_parent_failure}
use odoo_job_worker.Graph.Barrier.{release_dependents, fail_dependents}
use odoo_job_worker.Queue.Defs.{Queue, find_other_active, key_is_taken}

unfoldable pub reset : ℕ → Job → Job
reset now r = record r {
  state = pending;
  attempts = some 0;
  exc_info = none;
  result = none;
  scheduled_at = none;
  worker_id = none;
  heartbeat = none;
  started_at = none;
  completed_at = none;
  cancelled_at = none;
  duration = none;
  write_date = now;
}

-- One round of `button_requeue`. A job that is gone is left alone; the source raises for it, and is
-- called on jobs that exist.
requeue_found : ℕ → ℕ → Option Job → Queue → Queue
requeue_found now job none q = q
requeue_found now job (some r) q =
    if key_is_taken r q.jobs
    then q
    else record q { jobs = write job (reset now) q.jobs; notifications = q.notifications + 1 }

unfoldable pub button_requeue : ℕ → List ℕ → Queue → Queue
unfolding requeue_found
button_requeue now [] q = q
button_requeue now (job ∷ jobs) q =
    button_requeue now jobs (requeue_found now job (browse job q.jobs) q)

abbrev pub elapsed : ℕ → Option ℕ → Option Seconds → Option Seconds
elapsed now none old = old
elapsed now (some t) old = some (seconds_between now t)

-- `vals` of `button_set_to_done` and `button_set_to_failed`.
unfoldable pub conclude : State → ℕ → Job → Job
conclude state now r = record r {
  state = state;
  completed_at = some now;
  duration = elapsed now r.started_at r.duration;
  write_date = now;
}

-- `job.write(vals)` under the constraint, for a job that exists.
conclude_found : State → ℕ → ℕ → Option Job → List Job → Option (List Job)
conclude_found state now job none rows = none
conclude_found state now job (some r) rows =
    if key_is_taken r rows then none else some (write job (conclude state now) rows)

unfoldable pub write_done : ℕ → List ℕ → List Job → Option (List Job)
unfolding conclude_found
write_done now [] rows = some rows
write_done now (job ∷ jobs) rows =
    and_then (conclude_found done now job (browse job rows) rows) (write_done now jobs)

unfoldable pub button_set_to_done : ℕ → List ℕ → List Job → Option (List Job)
unfolding write_done
button_set_to_done now jobs rows =
    and_then (write_done now jobs rows) (λ rows'. some (release_dependents now jobs rows'))

unfoldable pub write_failed : ℕ → List ℕ → List Job → Option (List Job)
unfolding conclude_found
write_failed now [] rows = some rows
write_failed now (job ∷ jobs) rows =
    and_then (conclude_found failed now job (browse job rows) rows)
      (λ rows'. write_failed now jobs (cascade_children_on_parent_failure now job rows'))

unfoldable pub button_set_to_failed : ℕ → List ℕ → List Job → Option (List Job)
unfolding write_failed
button_set_to_failed now jobs rows =
    and_then (write_failed now jobs rows) (λ rows'. some (fail_dependents now jobs rows'))

abbrev pub at_most : Option ℕ → ℕ → Bool
at_most none cutoff = false
at_most (some t) cutoff = leb t cutoff

abbrev pub is_expired_state : State → Option ℕ → Option ℕ → ℕ → Bool
is_expired_state done completed cancelled cutoff = at_most completed cutoff
is_expired_state failed completed cancelled cutoff = at_most completed cutoff
is_expired_state State.cancelled completed cancelled cutoff = at_most cancelled cutoff
is_expired_state _ completed cancelled cutoff = false

-- The domain of the search in `_gc_old_jobs`.
abbrev pub is_expired : ℕ → Job → Bool
is_expired cutoff r = is_expired_state r.state r.completed_at r.cancelled_at cutoff

-- `search(domain, limit=chunk_size)` and `unlink()`: the rows that stay, and how many went. The rows
-- are listed in the order of the search, which is `_order` of the model.
unfoldable pub unlink_chunk : ℕ → ℕ → List Job → List Job × ℕ
unlink_chunk cutoff room [] = ([], 0)
unlink_chunk cutoff room (r ∷ rows) =
    let (kept, count) = unlink_chunk cutoff (if is_expired cutoff r then room - 1 else room) rows in
    if is_expired cutoff r && ltb 0 room then (kept, suc count) else (r ∷ kept, count)

abbrev pub chunk_size : ℕ
chunk_size = 1000

-- The `while True` loop, with fuel; `none` where the fuel runs out.
unfoldable pub gc_loop : ℕ → ℕ → ℕ → List Job → Option (List Job)
gc_loop zero chunk cutoff rows = none
gc_loop (suc fuel) chunk cutoff rows =
    let (kept, count) = unlink_chunk cutoff chunk rows in
    let again = gc_loop fuel chunk cutoff kept in
    if count == 0 then some rows else if ltb count chunk then some kept else again
