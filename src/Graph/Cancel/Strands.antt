-- ===== src/Graph/Cancel/Strands.antt =====
-- The guarantees of the three loops of the cascade of a cancellation.
use mathlib.Core.Option.{some-injective}
use odoo_job_worker.Base.{
  and_then-some, ℕ, zero, suc, ◌≡◌, subst, some, List, [], ◌∷◌, ◌++◌, All, All-map, All-split, ◌==◌,
  is_key,
}
use odoo_job_worker.Job.{Job, lists_dependency, write}
use odoo_job_worker.Graph.Walk.Laws.{NoWaitingChild}
use odoo_job_worker.Graph.Children.{cancel}
use odoo_job_worker.Graph.Cancel.{
  Pass, follow, waiting_children, cancel_listed, cancel_queue, cancel_dependents, cancel_each,
}
use odoo_job_worker.Graph.Cancel.Settled.{
  NoWaitingBarrier, Settles, IsQuiet-Cancels, Settles-Cancels, Settles-trans, Settles-refl,
  Settles-paid,
}
use odoo_job_worker.Graph.Cancel.Passes.{
  write-Settles, write-NotWaiting, barriers_stay, cancel_listed_lem, children_settled, NotWaiting,
  All-both,
}

module _ (now : ℕ) where
  abbrev pub Guarantee : (ℕ → List Job → Type 0) → List ℕ → List Job → List Job → Type 0
  Guarantee G jobs rows after = Settles now [] rows after × All (λ k. G k after) jobs

  follow-Settles :
      (jobs ids : List ℕ) (rows listed : List Job) (each next : Pass)
      → ((js : List ℕ) (xs after : List Job)
          → each js xs ≡ some after
          → Guarantee NoWaitingChild js xs after)
      → ((js : List ℕ) (xs after : List Job)
          → next js xs ≡ some after
          → Guarantee NoWaitingBarrier js xs after)
      → Settles now ids rows listed
      → All (λ k. NoWaitingBarrier k listed) jobs
      → (after : List Job) → follow listed ids each next ≡ some after
      → Guarantee NoWaitingBarrier jobs rows after
  follow-Settles jobs [] rows listed each next f g s quiet after e =
      subst (Guarantee NoWaitingBarrier jobs rows) (some-injective _ _ e) (s, quiet)
  follow-Settles jobs (job ∷ rest) rows listed each next f g s quiet after e =
      let (mid, first, then_) =
        and_then-some (each (job ∷ rest) listed) (next (job ∷ rest)) after e in
      let ids = job ∷ rest in
      let (s1, children) = f ids listed mid first in
      let (s2, barriers) = g ids mid after then_ in
      let s12 = Settles-trans now [] listed mid after s1 s2 in
      let children' : All (λ k. NoWaitingChild k after) ids =
        All-map {Q = λ k. NoWaitingChild k after}
          (λ k.
            IsQuiet-Cancels now (λ i t. is_key t.parent_id k) mid after
              (Settles-Cancels now [] mid after s2))
          ids children in
      (
        Settles-paid now ids rows after
            (All-both (λ k. NoWaitingChild k after) (λ k. NoWaitingBarrier k after) ids children'
              barriers)
            (Settles-trans now ids rows listed after s s12),
        barriers_stay now jobs listed after (Settles-Cancels now [] listed after s12) quiet,
      )

  mutual
    unfolding cancel_queue cancel_dependents cancel_each

    pub queue_settles :
        (fuel : ℕ) (queue : List ℕ) (rows after : List Job)
        → cancel_queue fuel now queue rows ≡ some after
        → Guarantee NotWaiting queue rows after
    queue_settles zero queue rows after e = cc
    queue_settles (suc fuel) [] rows after e =
        subst (Guarantee NotWaiting [] rows) (some-injective _ _ e) (Settles-refl now rows, tt)
    queue_settles (suc fuel) (job ∷ queue) rows after e =
        let written = write job (cancel now) rows in
        let children = waiting_children job written in
        let (mid, first, rest) =
          and_then-some (cancel_dependents fuel now (job ∷ []) written)
            (cancel_queue fuel now (queue ++ children)) after e in
        let (s1, barrier) = dependents_settles fuel (job ∷ []) written mid first in
        let (s2, idle) = queue_settles fuel (queue ++ children) mid after rest in
        let s12 = Settles-trans now [] written mid after s1 s2 in
        let (idle_queue, idle_children) = All-split (λ c. NotWaiting c after) queue children idle in
        let z = Settles-Cancels now [] written after s12 in
        (
          Settles-paid now (job ∷ []) rows after
              (
                (
                  children_settled now job written after z idle_children,
                  IsQuiet-Cancels now (λ i t. lists_dependency t.dependency_job_ids job) mid after
                      (Settles-Cancels now [] mid after s2) barrier.0,
                ),
                tt,
              )
              (Settles-trans now (job ∷ []) rows written after (write-Settles now job rows) s12),
          (
            IsQuiet-Cancels now (λ i t. i == job) written after z (write-NotWaiting now job rows),
            idle_queue,
          ),
        )

    pub dependents_settles :
        (fuel : ℕ) (jobs : List ℕ) (rows after : List Job)
        → cancel_dependents fuel now jobs rows ≡ some after
        → Guarantee NoWaitingBarrier jobs rows after
    dependents_settles zero jobs rows after e = cc
    dependents_settles (suc fuel) jobs rows after e =
        let (s, quiet) = cancel_listed_lem now jobs rows in
        follow-Settles jobs (cancel_listed now jobs rows).1 rows (cancel_listed now jobs rows).0
          (cancel_each fuel now) (cancel_dependents fuel now) (each_settles fuel)
          (dependents_settles fuel) s quiet after e

    pub each_settles :
        (fuel : ℕ) (jobs : List ℕ) (rows after : List Job)
        → cancel_each fuel now jobs rows ≡ some after
        → Guarantee NoWaitingChild jobs rows after
    each_settles zero jobs rows after e = cc
    each_settles (suc fuel) [] rows after e =
        subst (Guarantee NoWaitingChild [] rows) (some-injective _ _ e) (Settles-refl now rows, tt)
    each_settles (suc fuel) (job ∷ jobs) rows after e =
        let (mid, first, rest) =
          and_then-some (cancel_queue fuel now (waiting_children job rows) rows)
            (cancel_each fuel now jobs) after e in
        let (s1, idle) = queue_settles fuel (waiting_children job rows) rows mid first in
        let (s2, quiet) = each_settles fuel jobs mid after rest in
        (
          Settles-trans now [] rows mid after s1 s2,
          (
            IsQuiet-Cancels now (λ i t. is_key t.parent_id job) mid after
                (Settles-Cancels now [] mid after s2)
                (children_settled now job rows mid (Settles-Cancels now [] rows mid s1) idle),
            quiet,
          ),
        )
