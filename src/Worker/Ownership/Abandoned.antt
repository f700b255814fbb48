-- ===== src/Worker/Ownership/Abandoned.antt =====
-- A job that overran its timeout while its thread goes on.
pub mod Due
use odoo_job_worker.Base.{
  ℕ, ◌+◌, ◌<◌, ◌≤◌, ◌≡◌, inl, inr, refl, ap, sym, subst, Bool, true, false, some, List, [], ◌∷◌,
  Bool-cases, get_elem?, get_elem?-update_if, member, update_if, arith,
}
use odoo_job_worker.Job.{Job}
use odoo_job_worker.Worker.Acquire.{is_takeable}
use odoo_job_worker.Worker.Ownership.{
  beat, beats_with, update_heartbeats, runs_under, heartbeat_job, stamp_timeout, handle_timeout,
  Tick, ended, timed_out, Attempt, overruns, beat_if, stamp_if, heartbeat_loop,
}

-- The clock of the rounds goes forward from a time.
abbrev pub Ascending : ℕ → List Tick → Type 0
Ascending from [] = Unit
Ascending from (t ∷ ticks) = (from ≤ t.at_time) × Ascending t.at_time ticks

-- A row of the attempt: it is started under the worker, and its last heartbeat is not after a time.
pub record IsRun (a : Attempt) (from : ℕ) (r : Job) : Type 0 where
  pub runs : runs_under a.worker a.job r ≡ true
  pub last : ℕ
  pub beaten : r.heartbeat ≡ some last
  pub early : last ≤ from

-- The row at a place is run by the attempt.
pub record RunsAt (a : Attempt) (from i : ℕ) (rows : List Job) : Type 0 where
  pub row : Job
  pub at_i : get_elem? rows i ≡ some row
  pub run : IsRun a from row

write-RunsAt :
    (a : Attempt) (from i : ℕ) (rows : List Job) (f : Job → Job)
    → ((r : Job) → IsRun a from r → IsRun a from (f r))
    → RunsAt a from i rows
    → RunsAt a from i (update_if (runs_under a.worker a.job) f rows)
write-RunsAt a from i rows f keeps h = record {
  row = f h.row;
  at_i =
      rw (get_elem?-update_if (runs_under a.worker a.job) f rows i h.row h.at_i, h.run.runs) refl;
  run = keeps h.row h.run;
}

later-RunsAt :
    (a : Attempt) (from now i : ℕ) (rows : List Job)
    → from ≤ now
    → RunsAt a from i rows
    → RunsAt a now i rows
later-RunsAt a from now i rows le h = record {
  row = h.row;
  at_i = h.at_i;
  run = record {
    runs = h.run.runs;
    last = h.run.last;
    beaten = h.run.beaten;
    early = omega (arith, h.run.early);
  };
}

beat_if-RunsAt :
    (a : Attempt) (now i : ℕ) (succeeds : Bool) (rows : List Job)
    → RunsAt a now i rows
    → RunsAt a now i (beat_if succeeds now a rows)
unfolding heartbeat_job beat
beat_if-RunsAt a now i false rows h = h
beat_if-RunsAt a now i true rows h =
    write-RunsAt a now i rows (beat now)
      (λ r run. record { runs = run.runs; last = now; beaten = refl; early = omega arith }) h

stamp_if-RunsAt :
    (a : Attempt) (now i : ℕ) (succeeds : Bool) (rows : List Job)
    → RunsAt a now i rows
    → RunsAt a now i (stamp_if succeeds now a rows)
unfolding handle_timeout stamp_timeout
stamp_if-RunsAt a now i false rows h = h
stamp_if-RunsAt a now i true rows h =
    write-RunsAt a now i rows (stamp_timeout now a.ceiling a.timeout)
      (λ r run. record { runs = run.runs; last = run.last; beaten = run.beaten; early = run.early })
      h

pub loop-RunsAt :
    (a : Attempt) (from i end : ℕ) (ticks : List Tick) (rows : List Job)
    → Ascending from ticks
    → RunsAt a from i rows
    → (heartbeat_loop a ticks rows).1 ≡ timed_out end
    → RunsAt a end i (heartbeat_loop a ticks rows).0
unfolding heartbeat_loop
loop-RunsAt a from i end [] rows up h e = cc
loop-RunsAt a from i end (t ∷ ticks) rows up h e =
    let now = t.at_time in
    let beaten = beat_if-RunsAt a now i t.beats rows (later-RunsAt a from now i rows up.0 h) in
    elim (Bool-cases t.stopped) [
      | inl stop ↦ let never : ended ≡ timed_out end = rw stop at e in cc
      | inr on ↦ elim (Bool-cases (overruns a now)) [
        | inl late ↦
            let same : timed_out now ≡ timed_out end = rw (on, late) at e in
            subst (λ k. RunsAt a k i (heartbeat_loop a (t ∷ ticks) rows).0) (end_of same)
              (rw (on, late) (stamp_if-RunsAt a now i t.stamps (beat_if t.beats now a rows) beaten))
        | inr early ↦
            rw (on, early)
              (loop-RunsAt a now i end ticks (beat_if t.beats now a rows) up.1 beaten
                (rw (on, early) at e))
      ]
    ]
  where
    end_of : {k l : ℕ} → timed_out k ≡ timed_out l → k ≡ l
    end_of e = ap (λ x. elim x [ timed_out k ↦ k | _ ↦ 0 ]) e

pub stale_is_takeable :
    (a : Attempt) (from now stale : ℕ) (r : Job)
    → IsRun a from r
    → from + stale < now
    → is_takeable now stale r ≡ true
stale_is_takeable a from now stale r run late = rw run.beaten (ground (arith, run.runs, run.early))

-- The beats of the main loop for its active jobs, oldest first.
unfoldable pub main_beats : ℕ → List ℕ → List ℕ → List Job → List Job
main_beats worker active [] rows = rows
main_beats worker active (now ∷ times) rows =
    main_beats worker active times (update_heartbeats now worker active rows)

beats_own :
    (a : Attempt) (from : ℕ) (active : List ℕ) (r : Job)
    → member a.job active ≡ true
    → IsRun a from r
    → beats_with a.worker active r ≡ true
beats_own a from active r listed run =
    let same : r.id ≡ a.job = ground (arith, run.runs) in
    let known : member r.id active ≡ true = subst (λ k. member k active ≡ true) (sym same) listed in
    rw known (ground (arith, run.runs))

-- A beat of the main loop reaches every job that is active, as the job of the attempt is.
beaten-RunsAt :
    (a : Attempt) (from now i : ℕ) (active : List ℕ) (rows : List Job)
    → member a.job active ≡ true
    → RunsAt a from i rows
    → (h : RunsAt a now i (update_heartbeats now a.worker active rows)) × (h.run.last ≡ now)
unfolding update_heartbeats beat
beaten-RunsAt a from now i [] rows listed h = cc
beaten-RunsAt a from now i (k ∷ active) rows listed h = (
  record {
    row = beat now h.row;
    at_i =
        rw
          (
            get_elem?-update_if (beats_with a.worker (k ∷ active)) (beat now) rows i h.row h.at_i,
            beats_own a from (k ∷ active) h.row listed h.run,
          )
          refl;
    run = record { runs = h.run.runs; last = now; beaten = refl; early = omega arith };
  },
  refl,
)

main_beats-RunsAt :
    (a : Attempt) (from i : ℕ) (active times : List ℕ) (rows : List Job)
    → member a.job active ≡ true
    → RunsAt a from i rows
    → (k : ℕ) × RunsAt a k i (main_beats a.worker active times rows)
unfolding main_beats
main_beats-RunsAt a from i active [] rows listed h = (from, h)
main_beats-RunsAt a from i active (now ∷ times) rows listed h =
    main_beats-RunsAt a now i active times (update_heartbeats now a.worker active rows) listed
      (beaten-RunsAt a from now i active rows listed h).0

fresh_is_held :
    (a : Attempt) (from now stale : ℕ) (r : Job) (run : IsRun a from r)
    → now ≤ run.last + stale
    → is_takeable now stale r ≡ false
fresh_is_held a from now stale r run soon = rw run.beaten (ground (arith, run.runs))

-- If the heartbeat thread of a job has ended with a timeout, but the job is still among the active jobs
-- of the worker, as it is until its thread returns, then each beat of the main loop refreshes it: at no
-- time up to the stale window after such a beat may it be taken, however long ago the timeout was.
pub active_job_stays_held :
    (a : Attempt) (from i end last now stale : ℕ) (ticks : List Tick) (active times : List ℕ)
    (rows : List Job)
    → Ascending from ticks
    → RunsAt a from i rows
    → (heartbeat_loop a ticks rows).1 ≡ timed_out end
    → member a.job active ≡ true
    → now ≤ last + stale
    → let after = main_beats a.worker active times (heartbeat_loop a ticks rows).0 in
      (r : Job) × (get_elem? (update_heartbeats last a.worker active after) i ≡ some r)
      × (is_takeable now stale r ≡ false)
active_job_stays_held a from i end last now stale ticks active times rows up h e listed soon =
    let timed = loop-RunsAt a from i end ticks rows up h e in
    let (k, kept) =
      main_beats-RunsAt a end i active times (heartbeat_loop a ticks rows).0 listed timed in
    let (held, newest) =
      beaten-RunsAt a k last i active
        (main_beats a.worker active times (heartbeat_loop a ticks rows).0) listed kept in
    (
      held.row,
      held.at_i,
      fresh_is_held a last now stale held.row held.run (omega (arith, newest, soon)),
    )
