-- ===== src/Graph/Barrier/Outcome.antt =====
-- What becomes of a barrier when the jobs that it lists end, one after another.
use mathlib.Core.List.{map-id, map-map}
use odoo_job_worker.Base.{
  ℕ, suc, ◌-◌, ◌<◌, ◌≡◌, ◌∙◌, refl, sym, ap, subst, map, Bool, true, false, List, [], ◌∷◌, All, Zip,
  map-Zip, Zip-at, get_elem?, some, length, if◌then◌else◌, arith,
}
use odoo_job_worker.Job.{
  Job, Settings, State, waiting, pending, failed, cancelled, is_waiting, lists_dependency,
  barred_by,
}
use odoo_job_worker.Graph.Barrier.{release_row, fail_row, release_dependents_of, fail_dependents_of}

-- How a job that a barrier lists ended.
pub data Ending : Type 0 where
  succeeded : (job : ℕ) → Ending
  broke : (job : ℕ) → Ending

abbrev pub ended_job : Ending → ℕ
ended_job (succeeded job) = job
ended_job (broke job) = job

abbrev pub all_succeeded : List Ending → Bool
all_succeeded [] = true
all_succeeded (succeeded _ ∷ es) = all_succeeded es
all_succeeded (broke _ ∷ es) = false

-- The statement that the end of a job runs on the rows that list it.
unfoldable pub deliver : ℕ → Ending → List Job → List Job
deliver now (succeeded job) rows = release_dependents_of now job rows
deliver now (broke job) rows = fail_dependents_of now job rows

unfoldable pub deliver_all : ℕ → List Ending → List Job → List Job
deliver_all now [] rows = rows
deliver_all now (e ∷ es) rows = deliver_all now es (deliver now e rows)

abbrev row_after : ℕ → Ending → Job → Job
row_after now (succeeded job) r = if barred_by job r then release_row now r else r
row_after now (broke job) r = if barred_by job r then fail_row now job r else r

abbrev row_after_all : ℕ → List Ending → Job → Job
row_after_all now [] r = r
row_after_all now (e ∷ es) r = row_after_all now es (row_after now e r)

-- The state of a barrier once its last job has ended.
abbrev pub verdict : Bool → Bool → State
verdict run_on_failure true = if run_on_failure then cancelled else pending
verdict run_on_failure false = if run_on_failure then pending else failed

abbrev Lists : Job → List Ending → Type 0
Lists r es = All (λ e. lists_dependency r.dependency_job_ids (ended_job e) ≡ true) es

row_after_all_settled :
    (now : ℕ) (es : List Ending) (r : Job) → is_waiting r.state ≡ false → row_after_all now es r ≡ r
row_after_all_settled now [] r h = refl
row_after_all_settled now (succeeded job ∷ es) r h =
    let still : barred_by job r ≡ false = ground arith in
    rw still (row_after_all_settled now es r h)
row_after_all_settled now (broke job ∷ es) r h =
    let still : barred_by job r ≡ false = ground arith in
    rw still (row_after_all_settled now es r h)

is_barred :
    (job : ℕ) (r : Job)
    → r.state ≡ waiting
    → lists_dependency r.dependency_job_ids job ≡ true
    → barred_by job r ≡ true
is_barred job r w l = ground arith

fail_row_lem :
    (now job : ℕ) (r : Job)
    → (is_waiting (fail_row now job r).state ≡ false)
      × ((fail_row now job r).state ≡ verdict r.run_on_failure false)
unfolding fail_row
fail_row_lem now job r = ground arith

-- A success that is not the last one counts down, and the barrier waits on.
release_row-countdown :
    (now k : ℕ) (r : Job)
    → r.state ≡ waiting
    → r.pending_dependency_count ≡ suc (suc k)
    → ((release_row now r).state ≡ waiting) × ((release_row now r).pending_dependency_count ≡ suc k)
unfolding release_row
release_row-countdown now k r w c = ground arith

-- The last success decides.
release_row_last :
    (now : ℕ) (r : Job)
    → r.pending_dependency_count ≡ 1
    → (is_waiting (release_row now r).state ≡ false)
      × ((release_row now r).state ≡ verdict r.run_on_failure true)
unfolding release_row
release_row_last now r c = ground arith

release_row-settings : (now : ℕ) (r : Job) → (release_row now r).settings ≡ r.settings
unfolding release_row
release_row-settings now r = refl

row_after-release :
    (now job : ℕ) (r : Job)
    → barred_by job r ≡ true
    → row_after now (succeeded job) r ≡ release_row now r
row_after-release now job r h = rw h

row_after-fail :
    (now job : ℕ) (r : Job)
    → barred_by job r ≡ true
    → row_after now (broke job) r ≡ fail_row now job r
row_after-fail now job r h = rw h

row_verdict :
    (now : ℕ) (es : List Ending) (r : Job)
    → r.state ≡ waiting
    → Lists r es
    → r.pending_dependency_count ≡ length es
    → 0 < length es
    → (row_after_all now es r).state ≡ verdict r.run_on_failure (all_succeeded es)
row_verdict now [] r w l c pos = absurd (omega arith)
row_verdict now (broke job ∷ es) r w l c pos =
    let (out, state) = fail_row_lem now job r in
    subst (λ x. (row_after_all now es x).state ≡ verdict r.run_on_failure false)
      (sym (row_after-fail now job r (is_barred job r w l.0)))
      (rw (row_after_all_settled now es (fail_row now job r) out) state)
row_verdict now (succeeded job ∷ []) r w l c pos =
    rw (is_barred job r w l.0) (release_row_last now r c).1
row_verdict now (succeeded job ∷ e ∷ es) r w l c pos =
    let (stays, fewer) = release_row-countdown now (length es) r w c in
    let same = release_row-settings now r in
    let listed : Lists (release_row now r) (e ∷ es) =
      subst
        (λ (s : Settings).
          All (λ d. lists_dependency s.dependency_job_ids (ended_job d) ≡ true) (e ∷ es))
        (sym same) l.1 in
    let later = row_verdict now (e ∷ es) (release_row now r) stays listed fewer (omega arith) in
    subst
      (λ x.
        (row_after_all now (e ∷ es) x).state ≡ verdict r.run_on_failure (all_succeeded (e ∷ es)))
      (sym (row_after-release now job r (is_barred job r w l.0)))
      (subst
        (λ (s : Settings).
          (row_after_all now (e ∷ es) (release_row now r)).state
          ≡ verdict s.run_on_failure (all_succeeded (e ∷ es)))
        same later)

deliver-rows :
    (now : ℕ) (e : Ending) (rows : List Job) → deliver now e rows ≡ map (row_after now e) rows
unfolding deliver release_dependents_of fail_dependents_of
deliver-rows now (succeeded job) [] = refl
deliver-rows now (succeeded job) (r ∷ rows) =
    ap (λ rest. row_after now (succeeded job) r ∷ rest) (deliver-rows now (succeeded job) rows)
deliver-rows now (broke job) [] = refl
deliver-rows now (broke job) (r ∷ rows) =
    ap (λ rest. row_after now (broke job) r ∷ rest) (deliver-rows now (broke job) rows)

-- What the endings `es` make of a waiting row that lists all of them: before the last one, and with
-- no failure among them, it waits on; with the last one it is decided.
abbrev pub Decides : List Ending → Job → Job → Type 0
Decides es before after =
    before.state ≡ waiting
    → All (λ e. lists_dependency before.dependency_job_ids (ended_job e) ≡ true) es
    → before.pending_dependency_count ≡ length es
    → 0 < length es
    → after.state ≡ verdict before.run_on_failure (all_succeeded es)

deliver_all-rows :
    (now : ℕ) (es : List Ending) (rows : List Job)
    → deliver_all now es rows ≡ map (row_after_all now es) rows
unfolding deliver_all
deliver_all-rows now [] rows = sym (map-id rows)
deliver_all-rows now (e ∷ es) rows =
    deliver_all-rows now es (deliver now e rows)
    ∙ ap (map (row_after_all now es)) (deliver-rows now e rows)
    ∙ map-map (row_after_all now es) (row_after now e) rows

deliver_all-Decides :
    (now : ℕ) (es : List Ending) (rows : List Job) → Zip (Decides es) rows (deliver_all now es rows)
deliver_all-Decides now es rows =
    rw (deliver_all-rows now es rows)
      (map-Zip (Decides es) (row_after_all now es) (row_verdict now es) rows)

-- Take a waiting row that lists the jobs of `es` and counts one dependency for each of them, at
-- least one. When they all have ended, in whatever order, the row is decided: if all succeeded, an
-- on_done barrier is pending and an on_error barrier is cancelled; if one failed, the on_done
-- barrier has failed and the on_error barrier is pending.
pub barrier_verdict :
    (now : ℕ) (es : List Ending) (rows : List Job) (i : ℕ) (before after : Job)
    → get_elem? rows i ≡ some before
    → get_elem? (deliver_all now es rows) i ≡ some after
    → before.state ≡ waiting
    → All (λ e. lists_dependency before.dependency_job_ids (ended_job e) ≡ true) es
    → before.pending_dependency_count ≡ length es
    → 0 < length es
    → after.state ≡ verdict before.run_on_failure (all_succeeded es)
barrier_verdict now es rows i before after e f =
    Zip-at (Decides es) rows (deliver_all now es rows) i before after
      (deliver_all-Decides now es rows) e f

-- What a list of successes that is shorter than the count makes of a waiting row that lists them.
abbrev pub CountsDown : List Ending → Job → Job → Type 0
CountsDown es before after =
    before.state ≡ waiting
    → All (λ e. lists_dependency before.dependency_job_ids (ended_job e) ≡ true) es
    → all_succeeded es ≡ true
    → length es < before.pending_dependency_count
    → (after.state ≡ waiting)
      × (after.pending_dependency_count ≡ before.pending_dependency_count - length es)

row-CountsDown : (now : ℕ) (es : List Ending) (r : Job) → CountsDown es r (row_after_all now es r)
row-CountsDown now [] r w l a c = (w, omega arith)
row-CountsDown now (broke job ∷ es) r w l a c = absurd (ground arith)
row-CountsDown now (succeeded job ∷ es) r w l a c =
    let (stays, fewer) =
      release_row-countdown now (r.pending_dependency_count - 2) r w (omega arith) in
    let listed : Lists (release_row now r) es =
      subst
        (λ (s : Settings). All (λ d. lists_dependency s.dependency_job_ids (ended_job d) ≡ true) es)
        (sym (release_row-settings now r)) l.1 in
    let later = row-CountsDown now es (release_row now r) stays listed a (omega arith) in
    subst
      (λ x.
        ((row_after_all now es x).state ≡ waiting)
        × ((row_after_all now es x).pending_dependency_count
            ≡ r.pending_dependency_count - suc (length es)))
      (sym (row_after-release now job r (is_barred job r w l.0))) (later.0, omega arith)

deliver_all-CountsDown :
    (now : ℕ) (es : List Ending) (rows : List Job)
    → Zip (CountsDown es) rows (deliver_all now es rows)
deliver_all-CountsDown now es rows =
    rw (deliver_all-rows now es rows)
      (map-Zip (CountsDown es) (row_after_all now es) (row-CountsDown now es) rows)

-- Take a waiting row and successes of jobs that it lists, fewer than it counts dependencies. After
-- them it still waits, and its count is less by their number, whichever jobs they are and however
-- often one of them occurs.
pub barrier_counts_down :
    (now : ℕ) (es : List Ending) (rows : List Job) (i : ℕ) (before after : Job)
    → get_elem? rows i ≡ some before
    → get_elem? (deliver_all now es rows) i ≡ some after
    → before.state ≡ waiting
    → All (λ e. lists_dependency before.dependency_job_ids (ended_job e) ≡ true) es
    → all_succeeded es ≡ true
    → length es < before.pending_dependency_count
    → (after.state ≡ waiting)
      × (after.pending_dependency_count ≡ before.pending_dependency_count - length es)
barrier_counts_down now es rows i before after e f =
    Zip-at (CountsDown es) rows (deliver_all now es rows) i before after
      (deliver_all-CountsDown now es rows) e f
