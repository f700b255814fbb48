-- ===== src/Queue/Buttons/Cancel/Cascade.antt =====
-- The end of `button_cancelled`, and the rows after it.
use mathlib.Core.Option.{some-injective}
use odoo_job_worker.Base.{
  and_then-some, some-and_then, ℕ, max, ◌≡◌, refl, subst, sym, true, Option, none, some, List, [],
  ◌∷◌, All, All-map, Zip, member, Zip-both, is_key, inl, inr, ◌⊎◌, arith,
}
use odoo_job_worker.Job.{Job, browse}
use odoo_job_worker.Graph.Walk.Laws.{NoWaitingChild}
use odoo_job_worker.Graph.Cancel.{cancel_each, cancel_dependents}
use odoo_job_worker.Graph.Cancel.Fuel.{cancel_each-some, cancel_dependents-some}
use odoo_job_worker.Graph.Cancel.Total.{cancel_each_returns, cancel_dependents_returns}
use odoo_job_worker.Graph.Cancel.Settled.{
  NoWaitingBarrier, NothingWaits, Cancels, Leaves, Settles, IsQuiet-Cancels, Settles-Cancels,
  Settles-both, Settles-trans, Settles-refl,
}
use odoo_job_worker.Graph.Cancel.Passes.{All-both, write-Settles}
use odoo_job_worker.Graph.Cancel.Strands.{each_settles, dependents_settles}
use odoo_job_worker.Graph.Cancel.Spares.{Spares, Zip-Spares-trans}
use odoo_job_worker.Queue.Buttons.Cancel.{
  cancelled_to, refused, cancel_found, write_cancelled, cascading, pass_on, finished, after_writes,
  button_cancelled,
}
use odoo_job_worker.Queue.Buttons.Cancel.Selected.{
  cancel_found-some, IsCancelledIn, IsMeant, write_cancelled-selects, write_cancelled-Spares,
  pass_on-Spares,
}

pass_on_returns :
    (now : ℕ) (jobs : List ℕ) (rows : List Job)
    → (fuel : ℕ) × (after : List Job) × (pass_on fuel now jobs rows ≡ some after)
unfolding pass_on
pass_on_returns now jobs rows =
    let (f, mid, first, _) = cancel_each_returns now jobs rows in
    let (g, after, second) = cancel_dependents_returns now jobs mid in
    (
      max f g,
      after,
      some-and_then (cancel_each (max f g) now jobs rows) (cancel_dependents (max f g) now jobs) mid
          after (cancel_each-some now (omega arith) jobs rows first)
          (cancel_dependents-some now (omega arith) jobs mid second),
    )

after_writes_returns :
    (now : ℕ) (jobs : List ℕ) (written : Option (List Job))
    → (fuel : ℕ) × ((after_writes fuel now jobs written ≡ refused)
        ⊎ ((after : List Job) × (after_writes fuel now jobs written ≡ cancelled_to after)))
after_writes_returns now jobs none = (0, inl refl)
after_writes_returns now jobs (some written) =
    let (fuel, after, e) = pass_on_returns now jobs written in (fuel, inr (after, rw e refl))

-- `button_cancelled` ends, whatever the graph of the rows, cyclic or not: some fuel is enough for it
-- to be refused by the constraint on identity keys or to return the rows.
pub button_cancelled_returns :
    (now : ℕ) (jobs : List ℕ) (rows : List Job)
    → (fuel : ℕ) × ((button_cancelled fuel now jobs rows ≡ refused)
        ⊎ ((after : List Job) × (button_cancelled fuel now jobs rows ≡ cancelled_to after)))
unfolding button_cancelled
button_cancelled_returns now jobs rows =
    after_writes_returns now (cascading jobs rows) (write_cancelled now jobs rows)

write_cancelled-Settles :
    (now : ℕ) (jobs owed : List ℕ) (rows after : List Job)
    → ((k : ℕ) → member k jobs ≡ true → member k owed ≡ true)
    → write_cancelled now jobs rows ≡ some after
    → Settles now owed rows after
unfolding write_cancelled
write_cancelled-Settles now [] owed rows after h e =
    subst (Settles now owed rows) (some-injective _ _ e) (
      Settles-both now [] [] owed (λ k m. cc) (λ k m. cc) rows rows rows (Settles-refl now rows)
        (Settles-refl now rows))
write_cancelled-Settles now (job ∷ jobs) owed rows after h e =
    let (mid, first, rest) =
      and_then-some (cancel_found now job (browse job rows) rows) (write_cancelled now jobs) after
        e in
    let wrote : Settles now (job ∷ []) rows mid =
      subst (Settles now (job ∷ []) rows)
        (sym (cancel_found-some now job (browse job rows) rows mid first))
        (write-Settles now job rows) in
    let later = write_cancelled-Settles now jobs owed mid after (λ k m. h k (ground arith)) rest in
    Settles-both now (job ∷ []) owed owed (λ k m. h k (ground arith)) (λ k m. m) rows mid after
      wrote later

finished-rows :
    (o : Option (List Job)) (after : List Job) → finished o ≡ cancelled_to after → o ≡ some after
finished-rows none after e = cc
finished-rows (some rows) after e = ground arith

after_writes-rows :
    (fuel now : ℕ) (jobs : List ℕ) (o : Option (List Job)) (after : List Job)
    → after_writes fuel now jobs o ≡ cancelled_to after
    → (written : List Job) × (o ≡ some written) × (pass_on fuel now jobs written ≡ some after)
after_writes-rows fuel now jobs none after e = cc
after_writes-rows fuel now jobs (some written) after e =
    (written, refl, finished-rows (pass_on fuel now jobs written) after e)

pass_on-Settles :
    (fuel now : ℕ) (jobs : List ℕ) (rows after : List Job)
    → pass_on fuel now jobs rows ≡ some after
    → Settles now [] rows after × All (λ k. NothingWaits k after) jobs
unfolding pass_on
pass_on-Settles fuel now jobs rows after e =
    let (mid, first, rest) =
      and_then-some (cancel_each fuel now jobs rows) (cancel_dependents fuel now jobs) after e in
    let (s1, children) = each_settles now fuel jobs rows mid first in
    let (s2, barriers) = dependents_settles now fuel jobs mid after rest in
    (
      Settles-trans now [] rows mid after s1 s2,
      All-both (λ k. NoWaitingChild k after) (λ k. NoWaitingBarrier k after) jobs
          (All-map {Q = λ k. NoWaitingChild k after}
            (λ k.
              IsQuiet-Cancels now (λ i t. is_key t.parent_id k) mid after
                (Settles-Cancels now [] mid after s2))
            jobs children)
          barriers,
    )

-- Each row is as it was, or it was cancelled.
pub button_cancelled-Cancels :
    (fuel now : ℕ) (jobs : List ℕ) (rows after : List Job)
    → button_cancelled fuel now jobs rows ≡ cancelled_to after
    → Zip (Cancels now) rows after
unfolding button_cancelled
button_cancelled-Cancels fuel now jobs rows after e =
    let (written, wrote, passed) =
      after_writes-rows fuel now (cascading jobs rows) (write_cancelled now jobs rows) after e in
    let (settles, quiet) = pass_on-Settles fuel now (cascading jobs rows) written after passed in
    Settles-Cancels now jobs rows after (
      Settles-trans now jobs rows written after
        (write_cancelled-Settles now jobs jobs rows written (λ k m. m) wrote) settles)

-- When `button_cancelled` returns, no row is left waiting, as a child or as a barrier, on a selected
-- job that had not ended before. Each row, at its place, is as it was or was cancelled; a selected
-- job was cancelled; a row that is neither a selected job nor has the id of a row that waited is as it
-- was; and on a row that it took out of `waiting`, unless it is one of the selected jobs, nothing is
-- left waiting either, however deep the chain and whichever of the two axes it goes along.
pub button_cancelled_strands_none :
    (fuel now : ℕ) (jobs : List ℕ) (rows after : List Job)
    → button_cancelled fuel now jobs rows ≡ cancelled_to after
    → All (λ k. NothingWaits k after) (cascading jobs rows)
      × Zip
          (λ b a.
            Cancels now b a
            × IsCancelledIn now jobs b a
            × Spares (IsMeant jobs rows) b a
            × Leaves jobs after b a)
          rows
          after
unfolding button_cancelled
button_cancelled_strands_none fuel now jobs rows after e =
    let (written, wrote, passed) =
      after_writes-rows fuel now (cascading jobs rows) (write_cancelled now jobs rows) after e in
    let (settles, quiet) = pass_on-Settles fuel now (cascading jobs rows) written after passed in
    let all =
      Settles-trans now jobs rows written after
        (write_cancelled-Settles now jobs jobs rows written (λ k m. m) wrote) settles in
    let selected =
      write_cancelled-selects now jobs rows written after wrote
        (Settles-Cancels now [] written after settles) in
    let (spared, within) =
      write_cancelled-Spares now (IsMeant jobs rows) jobs rows written (λ k m. inl m) (λ k w. inr w)
        wrote in
    let untouched = Zip-Spares-trans now (IsMeant jobs rows) rows written after spared (
      pass_on-Spares fuel now (IsMeant jobs rows) (cascading jobs rows) written after within
        passed) in
    let both : Zip (λ b a. Spares (IsMeant jobs rows) b a × Leaves jobs after b a) rows after =
      Zip-both (λ b a u h. (u, h.1)) rows after untouched all in
    (quiet, Zip-both (λ b a s h. (s.0, s.1, h.0, h.1)) rows after selected both)
