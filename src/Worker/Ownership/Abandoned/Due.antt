-- ===== src/Worker/Ownership/Abandoned/Due.antt =====
-- When a job that overran its timeout may be taken again.
use mathlib.Core.Option.{some-injective}
use odoo_job_worker.Base.{
  ℕ, ◌+◌, ◌<◌, ◌≤◌, ◌≡◌, ◌∙◌, inl, inr, refl, ap, sym, subst, Bool, true, false, ◌&&◌, Option, none,
  some, List, [], ◌∷◌, Bool-cases, get_elem?, get_elem?-update_if, update_if, ltb, arith,
}
use odoo_job_worker.Job.{Job}
use odoo_job_worker.Worker.Acquire.{
  Limit, running_count, recent_starts_count, find_limit, concurrency_limit, limit_admits, is_due,
  is_takeable, is_eligible,
}
use odoo_job_worker.Worker.Ownership.{
  beat, runs_under, pace, is_paced, heartbeat_job, stamp_timeout, handle_timeout, Tick, ended,
  timed_out, Attempt, overruns, beat_if, stamp_if, heartbeat_loop,
}
use odoo_job_worker.Worker.Ownership.Abandoned.{Ascending, RunsAt, loop-RunsAt, stale_is_takeable}

-- The row at a place is started under the worker of the attempt, and due at a time.
record DueAt (a : Attempt) (now i : ℕ) (rows : List Job) : Type 0 where
  row : Job
  at_i : get_elem? rows i ≡ some row
  runs : runs_under a.worker a.job row ≡ true
  due : is_due now row.scheduled_at ≡ true

is_due-later :
    (from now : ℕ) (t : Option ℕ) → from ≤ now → is_due from t ≡ true → is_due now t ≡ true
is_due-later from now none le h = refl
is_due-later from now (some t) le h = ground arith

write-DueAt :
    (a : Attempt) (now later i : ℕ) (rows : List Job) (f : Job → Job)
    → ((r : Job)
        → runs_under a.worker a.job r ≡ true
        → is_due now r.scheduled_at ≡ true
        → (runs_under a.worker a.job (f r) ≡ true) × (is_due later (f r).scheduled_at ≡ true))
    → DueAt a now i rows
    → DueAt a later i (update_if (runs_under a.worker a.job) f rows)
write-DueAt a now later i rows f keeps h =
    let (runs, due) = keeps h.row h.runs h.due in
    record {
      row = f h.row;
      at_i =
          rw (get_elem?-update_if (runs_under a.worker a.job) f rows i h.row h.at_i, h.runs) refl;
      runs = runs;
      due = due;
    }

later-DueAt :
    (a : Attempt) (from now i : ℕ) (rows : List Job)
    → from ≤ now
    → DueAt a from i rows
    → DueAt a now i rows
later-DueAt a from now i rows le h = record {
  row = h.row;
  at_i = h.at_i;
  runs = h.runs;
  due = is_due-later from now h.row.scheduled_at le h.due;
}

beat_if-DueAt :
    (a : Attempt) (now i : ℕ) (succeeds : Bool) (rows : List Job)
    → DueAt a now i rows
    → DueAt a now i (beat_if succeeds now a rows)
unfolding heartbeat_job beat
beat_if-DueAt a now i false rows h = h
beat_if-DueAt a now i true rows h = write-DueAt a now now i rows (beat now) (λ r u d. (u, d)) h

-- The delay that a timeout writes is at most the ceiling.
pace-bound : (ceiling : ℕ) (attempts : Option ℕ) → pace ceiling attempts ≤ ceiling
pace-bound ceiling attempts = omega arith

stamped_due :
    (a : Attempt) (now : ℕ) (r : Job)
    → is_due now r.scheduled_at ≡ true
    → is_due (now + a.ceiling) (stamp_timeout now a.ceiling a.timeout r).scheduled_at ≡ true
unfolding stamp_timeout
stamped_due a now r due = elim (Bool-cases (is_paced r.max_retries r.attempts)) [
  | inl paced ↦ rw paced (ground (arith, pace-bound a.ceiling r.attempts))
  | inr free ↦ rw free (is_due-later now (now + a.ceiling) r.scheduled_at (omega arith) due)
]

stamp_if-DueAt :
    (a : Attempt) (now i : ℕ) (succeeds : Bool) (rows : List Job)
    → DueAt a now i rows
    → DueAt a (now + a.ceiling) i (stamp_if succeeds now a rows)
unfolding handle_timeout
stamp_if-DueAt a now i false rows h = later-DueAt a now (now + a.ceiling) i rows (omega arith) h
stamp_if-DueAt a now i true rows h =
    write-DueAt a now (now + a.ceiling) i rows (stamp_timeout now a.ceiling a.timeout)
      (λ r u d. (unfold stamp_timeout in u, stamped_due a now r d)) h

loop-DueAt :
    (a : Attempt) (from i end : ℕ) (ticks : List Tick) (rows : List Job)
    → Ascending from ticks
    → DueAt a from i rows
    → (heartbeat_loop a ticks rows).1 ≡ timed_out end
    → DueAt a (end + a.ceiling) i (heartbeat_loop a ticks rows).0
unfolding heartbeat_loop
loop-DueAt a from i end [] rows up h e = cc
loop-DueAt a from i end (t ∷ ticks) rows up h e =
    let now = t.at_time in
    let beaten = beat_if-DueAt a now i t.beats rows (later-DueAt a from now i rows up.0 h) in
    elim (Bool-cases t.stopped) [
      | inl stop ↦ let never : ended ≡ timed_out end = rw stop at e in cc
      | inr on ↦ elim (Bool-cases (overruns a now)) [
        | inl late ↦
            let same : timed_out now ≡ timed_out end = rw (on, late) at e in
            subst (λ k. DueAt a (k + a.ceiling) i (heartbeat_loop a (t ∷ ticks) rows).0)
              (end_of same)
              (rw (on, late) (stamp_if-DueAt a now i t.stamps (beat_if t.beats now a rows) beaten))
        | inr early ↦
            rw (on, early)
              (loop-DueAt a now i end ticks (beat_if t.beats now a rows) up.1 beaten
                (rw (on, early) at e))
      ]
    ]
  where
    end_of : {k l : ℕ} → timed_out k ≡ timed_out l → k ≡ l
    end_of e = ap (λ x. elim x [ timed_out k ↦ k | _ ↦ 0 ]) e

-- Whether the channel of a row has room for it, among these rows.
abbrev pub has_room : ℕ → ℕ → List Limit → List Job → Job → Bool
has_room now stale limits rows r =
    ltb (running_count now stale r.channel rows) (concurrency_limit (find_limit r.channel limits))
    && limit_admits (find_limit r.channel limits) (recent_starts_count now r.channel rows)

-- If the rounds of a heartbeat thread end with a timeout, on a clock that goes forward, and the job was
-- run by the attempt before them, and was due, then once the stale window has passed after that end,
-- and `max_backoff_seconds` as well, which is the longest that the record of a timeout puts the job
-- off, the row may be taken again if its channel has room, and not if it has none, unless something
-- else writes to it: whether or not the beats and the record of the timeout succeeded.
pub timed_out_job_is_eligible :
    (a : Attempt) (from i end now stale : ℕ) (ticks : List Tick) (rows : List Job)
    (limits : List Limit) (ran : RunsAt a from i rows)
    → Ascending from ticks
    → is_due from ran.row.scheduled_at ≡ true
    → (heartbeat_loop a ticks rows).1 ≡ timed_out end
    → end + stale < now
    → end + a.ceiling ≤ now
    → let after = (heartbeat_loop a ticks rows).0 in
      (r : Job) × (get_elem? after i ≡ some r)
      × (is_eligible now stale limits after r ≡ has_room now stale limits after r)
unfolding is_eligible
timed_out_job_is_eligible a from i end now stale ticks rows limits ran up due e late paced =
    let held = loop-RunsAt a from i end ticks rows up ran e in
    let was_due : DueAt a from i rows = record {
      row = ran.row;
      at_i = ran.at_i;
      runs = ran.run.runs;
      due = due;
    } in
    let put_off = loop-DueAt a from i end ticks rows up was_due e in
    let same : put_off.row ≡ held.row = some-injective _ _ (sym put_off.at_i ∙ held.at_i) in
    let due_now : is_due now held.row.scheduled_at ≡ true =
      subst (λ (r : Job). is_due now r.scheduled_at ≡ true) same
        (is_due-later (end + a.ceiling) now put_off.row.scheduled_at paced put_off.due) in
    let takeable : is_takeable now stale held.row ≡ true =
      stale_is_takeable a end now stale held.row held.run late in
    (held.row, held.at_i, rw (takeable, due_now) refl)
