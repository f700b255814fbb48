-- ===== src/Graph/Cancel/Total.antt =====
-- Enough fuel for the cascade of a cancellation.
use odoo_job_worker.Base.{
  some-and_then, ℕ, zero, suc, ◌+◌, ◌≤◌, ◌<◌, ◌≡◌, refl, ap, sym, subst, max, Option, some, List,
  [], ◌∷◌, ◌++◌, length, Bool-cases, inl, inr, ◌⊎◌, arith, ◌∙◌,
}
use odoo_job_worker.Job.{Job, write, waiting_count}
use odoo_job_worker.Graph.Children.{cancel}
use odoo_job_worker.Graph.Cancel.{
  follow, waiting_children, cancel_listed, cancel_queue, cancel_dependents, cancel_each,
}
use odoo_job_worker.Graph.Cancel.Fuel.{cancel_queue-some, cancel_dependents-some, cancel_each-some}
use odoo_job_worker.Graph.Cancel.Ends.{
  still_waits, settled_count, write-waiting_count, write-waiting_count_lt, settled_count-write,
  waiting_children-still_waits, settled_count-append, cancel_listed-waiting_count,
  cancel_listed-nil,
}

-- Some fuel is enough, and no row starts to wait.
abbrev pub IsDefined : (ℕ → Option (List Job)) → List Job → Type 0
IsDefined f rows =
    (fuel : ℕ) × (after : List Job) × (f fuel ≡ some after)
    × (waiting_count after ≤ waiting_count rows)

-- The same, and the rows are untouched unless one of them ceases to wait.
abbrev Progresses : (ℕ → Option (List Job)) → List Job → Type 0
Progresses f rows =
    (fuel : ℕ) × (after : List Job) × (f fuel ≡ some after)
    × ((waiting_count after < waiting_count rows) ⊎ (after ≡ rows))

module _ (now : ℕ) where
  each_returns :
      (n : ℕ)
      → ((queue : List ℕ) (rows : List Job)
          → waiting_count rows < n
          → IsDefined (λ f. cancel_queue f now queue rows) rows)
      → (jobs : List ℕ) (rows : List Job) → waiting_count rows < n
      → IsDefined (λ f. cancel_each f now jobs rows) rows
  unfolding cancel_each
  each_returns n below [] rows h = (1, rows, refl, omega arith)
  each_returns n below (job ∷ jobs) rows h =
      let (f, mid, first, fewer) = below (waiting_children job rows) rows h in
      let (g, after, second, fewer') = each_returns n below jobs mid (omega (arith, fewer)) in
      (
        suc (max f g),
        after,
        some-and_then (cancel_queue (max f g) now (waiting_children job rows) rows)
            (cancel_each (max f g) now jobs) mid after
            (cancel_queue-some now (omega arith) (waiting_children job rows) rows first)
            (cancel_each-some now (omega arith) jobs mid second),
        omega (arith, fewer, fewer'),
      )

  module _ (n : ℕ)
      (queue_below : (queue : List ℕ) (rows : List Job)
        → waiting_count rows < n
        → IsDefined (λ f. cancel_queue f now queue rows) rows)
      (dependents_below : (jobs : List ℕ) (rows : List Job)
        → waiting_count rows < n
        → Progresses (λ f. cancel_dependents f now jobs rows) rows) where
    follow_returns :
        (ids : List ℕ) (listed rows : List Job)
        → length ids + waiting_count listed ≤ waiting_count rows
        → (length ids ≡ 0 → listed ≡ rows)
        → waiting_count rows ≤ n
        → Progresses (λ f. follow listed ids (cancel_each f now) (cancel_dependents f now)) rows
    follow_returns [] listed rows less same h = (0, listed, refl, inr (same refl))
    follow_returns (job ∷ rest) listed rows less same h =
        let (f, mid, first, fewer) =
          each_returns n queue_below (job ∷ rest) listed (omega (arith, less)) in
        let (g, after, second, fewer') =
          dependents_below (job ∷ rest) mid (omega (arith, less, fewer)) in
        (
          max f g,
          after,
          some-and_then (cancel_each (max f g) now (job ∷ rest) listed)
              (cancel_dependents (max f g) now (job ∷ rest)) mid after
              (cancel_each-some now (omega arith) (job ∷ rest) listed first)
              (cancel_dependents-some now (omega arith) (job ∷ rest) mid second),
          inl (elim fewer' [
            | inl down ↦ omega (arith, less, fewer, down)
            | inr same' ↦ omega (arith, less, fewer, ap waiting_count same')
          ]),
        )

    dependents_at :
        (jobs : List ℕ) (rows : List Job)
        → waiting_count rows ≤ n
        → Progresses (λ f. cancel_dependents f now jobs rows) rows
    unfolding cancel_dependents
    dependents_at jobs rows h =
        let (f, after, e, fewer) =
          follow_returns (cancel_listed now jobs rows).1 (cancel_listed now jobs rows).0 rows
            (cancel_listed-waiting_count now jobs rows) (cancel_listed-nil now jobs rows) h in
        (suc f, after, e, fewer)

    -- One round, once the rest of the loop is known to return.
    round_returns :
        (job : ℕ) (queue : List ℕ) (rows : List Job)
        → waiting_count (write job (cancel now) rows) ≤ waiting_count rows
        → waiting_count rows ≤ n
        → ((mid : List Job)
            → (waiting_count mid < waiting_count (write job (cancel now) rows))
              ⊎ (mid ≡ write job (cancel now) rows)
            → IsDefined
                (λ f.
                  cancel_queue f now
                    (queue ++ waiting_children job (write job (cancel now) rows))
                    mid)
                mid)
        → IsDefined (λ f. cancel_queue f now (job ∷ queue) rows) rows
    unfolding cancel_queue
    round_returns job queue rows less h next =
        let written = write job (cancel now) rows in
        let new = queue ++ waiting_children job written in
        let (f, mid, first, fewer) = dependents_at (job ∷ []) written (omega (arith, less)) in
        let (g, after, second, fewer') = next mid fewer in
        (
          suc (max f g),
          after,
          some-and_then (cancel_dependents (max f g) now (job ∷ []) written)
              (cancel_queue (max f g) now new) mid after
              (cancel_dependents-some now (omega arith) (job ∷ []) written first)
              (cancel_queue-some now (omega arith) new mid second),
          elim fewer [
            | inl down ↦ omega (arith, less, down, fewer')
            | inr same ↦ omega (arith, less, fewer', ap waiting_count same)
          ],
        )

    queue_at :
        (m : ℕ) (queue : List ℕ) (rows : List Job)
        → settled_count queue rows < m
        → waiting_count rows ≤ n
        → IsDefined (λ f. cancel_queue f now queue rows) rows
    unfolding cancel_queue
    queue_at zero queue rows s h = absurd (omega arith)
    queue_at (suc m) [] rows s h = (1, rows, refl, omega arith)
    queue_at (suc m) (job ∷ queue) rows s h =
        let written = write job (cancel now) rows in
        let new = queue ++ waiting_children job written in
        let less = write-waiting_count now job rows in
        elim (Bool-cases (still_waits job rows)) [
          | inl waits ↦
              let down = write-waiting_count_lt now job rows waits in
              round_returns job queue rows less h (λ mid fewer. queue_below new mid (elim fewer [
                | inl lower ↦ omega (arith, down, lower)
                | inr same ↦ omega (arith, down, ap waiting_count same)
              ]))
          | inr idle ↦
              let kept : settled_count new written ≡ settled_count queue rows =
                settled_count-append queue (waiting_children job written) written
                  (waiting_children-still_waits job written)
                ∙ settled_count-write now job queue rows idle in
              let one_less : settled_count new written < m = omega (arith, kept, rw idle at s) in
              round_returns job queue rows less h (λ mid fewer. elim fewer [
                | inl lower ↦ queue_below new mid (omega (arith, less, lower))
                | inr same ↦
                    subst (λ x. IsDefined (λ f. cancel_queue f now new x) x) (sym same)
                      (queue_at m new written one_less (omega (arith, less)))
              ])
        ]

  returns_below :
      (n : ℕ)
      → ((queue : List ℕ) (rows : List Job)
          → waiting_count rows < n
          → IsDefined (λ f. cancel_queue f now queue rows) rows)
        × ((jobs : List ℕ) (rows : List Job)
            → waiting_count rows < n
            → Progresses (λ f. cancel_dependents f now jobs rows) rows)
  returns_below zero = ((λ queue rows h. elim h [ ]), (λ jobs rows h. elim h [ ]))
  returns_below (suc n) =
      let (queue_below, dependents_below) = returns_below n in
      (
        (λ queue rows h.
            queue_at n queue_below dependents_below (suc (settled_count queue rows)) queue rows
              (omega arith) (omega arith)),
        (λ jobs rows h. dependents_at n queue_below dependents_below jobs rows (omega arith)),
      )

  pub cancel_queue_returns :
      (queue : List ℕ) (rows : List Job) → IsDefined (λ f. cancel_queue f now queue rows) rows
  cancel_queue_returns queue rows =
      (returns_below (suc (waiting_count rows))).0 queue rows (omega arith)

  pub cancel_each_returns :
      (jobs : List ℕ) (rows : List Job) → IsDefined (λ f. cancel_each f now jobs rows) rows
  cancel_each_returns jobs rows =
      each_returns (suc (waiting_count rows)) (returns_below (suc (waiting_count rows))).0 jobs rows
        (omega arith)

  pub cancel_dependents_returns :
      (jobs : List ℕ) (rows : List Job)
      → (fuel : ℕ) × (after : List Job) × (cancel_dependents fuel now jobs rows ≡ some after)
  cancel_dependents_returns jobs rows =
      let (fuel, after, e, _) =
        (returns_below (suc (waiting_count rows))).1 jobs rows (omega arith) in
      (fuel, after, e)
