-- ===== src/Examples/Abandoned.antt =====
-- A job that overruns its timeout of 30 seconds.
use odoo_job_worker.Base.{◌≡◌, refl, true, false, some, List, [], ◌∷◌, get_elem?, arith}
use odoo_job_worker.Job.{Job, started}
use odoo_job_worker.Worker.Acquire.{is_takeable, is_eligible}
use odoo_job_worker.Worker.Ownership.{Tick, Attempt, heartbeat_loop, update_heartbeats}
use odoo_job_worker.Worker.Ownership.Abandoned.{RunsAt, main_beats, active_job_stays_held}
use odoo_job_worker.Worker.Ownership.Abandoned.Due.{has_room, timed_out_job_is_eligible}
use odoo_job_worker.Examples.Rows.{plain, row}

abbrev attempt : Attempt
attempt = record { worker = 77; ceiling = 3600; job = 1; timeout = 30; started_at = 100 }

abbrev running : Job
running = record (row 1 started plain 0) { worker_id = some 77; heartbeat = some 100 }

abbrev ticks : List Tick
ticks =
    record { stopped = false; at_time = 115; beats = true; stamps = true }
    ∷ record { stopped = false; at_time = 130; beats = false; stamps = true }
    ∷ []

runs : RunsAt attempt 100 0 (running ∷ [])
runs = record {
  row = running;
  at_i = refl;
  run = record { runs = refl; last = 100; beaten = refl; early = omega arith };
}

timed_out_job_is_eligible_example :
    let after = (heartbeat_loop attempt ticks (running ∷ [])).0 in
    (r : Job) × (get_elem? after 0 ≡ some r)
    × (is_eligible 4000 60 [] after r ≡ has_room 4000 60 [] after r)
unfolding heartbeat_loop runs
timed_out_job_is_eligible_example =
    timed_out_job_is_eligible attempt 100 0 130 4000 60 ticks (running ∷ []) [] runs
      (omega arith, (omega arith, tt)) refl refl (omega arith) (omega arith)

active_job_stays_held_example :
    (r : Job) × (get_elem?
        (update_heartbeats 900 77
          (1 ∷ [])
          (main_beats 77 (1 ∷ []) (140 ∷ 150 ∷ []) (heartbeat_loop attempt ticks (running ∷ [])).0))
        0
      ≡ some r)
    × (is_takeable 950 60 r ≡ false)
unfolding heartbeat_loop
active_job_stays_held_example =
    active_job_stays_held attempt 100 0 130 900 950 60 ticks (1 ∷ []) (140 ∷ 150 ∷ [])
      (running ∷ []) (omega arith, (omega arith, tt)) runs refl refl (omega arith)
