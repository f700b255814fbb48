-- ===== src/Worker/Ownership/Guard.antt =====
-- The guarded statements of a worker, and the rows of others.
use odoo_job_worker.Base.{
  ℕ, ◌≡◌, Bool, false, ◌&&◌, some, List, [], ◌∷◌, get_elem?, get_elem?-update_if_miss, is_key,
  member, ◌==◌, arith,
}
use odoo_job_worker.Job.{Job, is_started}
use odoo_job_worker.Worker.Ownership.{
  beat, beats_with, runs_under, stamp_timeout, disown, update_heartbeats, heartbeat_job,
  handle_timeout, clear_worker_ownership,
}

-- The statements that a worker runs under its own `worker_id`.
pub data Statement : Type 0 where
  beat_all : (snapshot : List ℕ) → Statement
  beat_one : (job : ℕ) → Statement
  time_out : (job timeout : ℕ) → Statement
  release : (job : ℕ) → Statement

unfoldable pub run_statement : ℕ → ℕ → ℕ → Statement → List Job → List Job
run_statement now worker ceiling (beat_all snapshot) rows =
    update_heartbeats now worker snapshot rows
run_statement now worker ceiling (beat_one job) rows = heartbeat_job now worker job rows
run_statement now worker ceiling (time_out job timeout) rows =
    handle_timeout now worker ceiling job timeout rows
run_statement now worker ceiling (release job) rows = clear_worker_ownership worker job rows

and_false : (a b : Bool) → b ≡ false → a && b ≡ false
and_false a b h = ground arith

-- Whatever a worker beats, times out or releases, a row that another worker owns, or that nobody
-- owns, is as it was.
pub run_statement_spares :
    (now worker ceiling : ℕ) (s : Statement) (rows : List Job) (i : ℕ) (r : Job)
    → get_elem? rows i ≡ some r
    → is_key r.worker_id worker ≡ false
    → get_elem? (run_statement now worker ceiling s rows) i ≡ some r
unfolding run_statement update_heartbeats heartbeat_job handle_timeout clear_worker_ownership
run_statement_spares now worker ceiling (beat_all []) rows i r e foreign = e
run_statement_spares now worker ceiling (beat_all (k ∷ ks)) rows i r e foreign =
    get_elem?-update_if_miss (beats_with worker (k ∷ ks)) (beat now) rows i r e
      (and_false (member r.id (k ∷ ks)) _ foreign)
run_statement_spares now worker ceiling (beat_one job) rows i r e foreign =
    get_elem?-update_if_miss (runs_under worker job) (beat now) rows i r e
      (and_false (r.id == job) _ (and_false (is_started r.state) _ foreign))
run_statement_spares now worker ceiling (time_out job timeout) rows i r e foreign =
    get_elem?-update_if_miss (runs_under worker job) (stamp_timeout now ceiling timeout) rows i r e
      (and_false (r.id == job) _ (and_false (is_started r.state) _ foreign))
run_statement_spares now worker ceiling (release job) rows i r e foreign =
    get_elem?-update_if_miss (λ r. r.id == job && is_key r.worker_id worker) disown rows i r e
      (and_false (r.id == job) _ foreign)
