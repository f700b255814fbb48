-- ===== src/Graph/Children/Success.antt =====
-- What the cascade of a success does to the descendants of the finished job.
use odoo_job_worker.Base.{
  ℕ, suc, ◌≡◌, refl, ◌⊎◌, inl, inr, true, false, some, List, [], ◌∷◌, All, Zip, Zip-both, Zip-at,
  get_elem?, Bool-cases, arith,
}
use odoo_job_worker.Job.{Job, pending, cancelled, is_waiting, waits_on, waiting_count}
use odoo_job_worker.Graph.Walk.{sweep, pushed, walk}
use odoo_job_worker.Graph.Walk.Laws.{
  NoWaitingChild, IsClosed, Changes, Leaves, sweep-NoWaitingChild_self, pushed-add-waiting_count,
  walk-NoWaitingChild, walk_returns, walk_queue, walk-Leaves, walk-Changes,
}
use odoo_job_worker.Graph.Children.{
  release_child, cancel_child, is_on_error, always, cascade_children_on_parent_success,
}

pub release_child_settles :
    (now parent : ℕ) (r : Job) → is_waiting (release_child now parent r).state ≡ false
unfolding release_child
release_child_settles now parent r = ground arith

pub cancel_child_settles :
    (now parent : ℕ) (r : Job) → is_waiting (cancel_child now parent r).state ≡ false
unfolding cancel_child
cancel_child_settles now parent r = refl

module _ (now job : ℕ) where
  abbrev released : List Job → List Job
  released = sweep (release_child now) is_on_error job

  abbrev queue : List Job → List ℕ
  queue = pushed (release_child now) is_on_error job

  -- The loop over cancelled jobs ends within one round for each waiting row and one more.
  pub cascade_success_returns :
      (rows : List Job)
      → walk (cancel_child now) always (suc (waiting_count rows)) (queue rows) (released rows)
        ≡ some (cascade_children_on_parent_success now job rows)
  unfolding cascade_children_on_parent_success
  cascade_success_returns rows =
      let (after, e) =
        walk_returns (cancel_child now) always (cancel_child_settles now) (suc (waiting_count rows))
          (queue rows) (released rows)
          (omega (
            arith,
            pushed-add-waiting_count (release_child now) is_on_error (release_child_settles now) job
                rows,
          )) in
      rw e

  -- What becomes of a row: nothing; or it waited on the job, and is now pending if it is an on_done
  -- job and cancelled if it is an on_error job; or it waited on a parent in `D`, and is cancelled.
  abbrev pub SucceedsUnder : (ℕ → Type 0) → Job → Job → Type 0
  SucceedsUnder D before after =
      (after ≡ before)
      ⊎ (waits_on job before ≡ true)
        × (before.run_on_failure ≡ false)
        × (after ≡ record before { state = pending; write_date = now })
      ⊎ ((p : ℕ) × ((p ≡ job) × (before.run_on_failure ≡ true) ⊎ D p)
          × (waits_on p before ≡ true)
          × (after
              ≡ record before { state = cancelled; cancelled_at = some now; write_date = now }))

  module _ (D : ℕ → Type 0) where
    abbrev CancelChanges : Job → Job → Type 0
    CancelChanges = Changes (cancel_child now) always (cancel_child_settles now) D

    abbrev pub IsClosedBelow : List Job → Type 0
    IsClosedBelow = IsClosed (cancel_child now) always (cancel_child_settles now) D

    queue-All :
        (rows : List Job)
        → All (λ r. waits_on job r ≡ true → r.run_on_failure ≡ true → D r.id) rows
        → All D (queue rows)
    unfolding pushed
    queue-All [] h = tt
    queue-All (r ∷ rows) h = elim (Bool-cases (waits_on job r)) [
      | inl waits ↦ elim (Bool-cases r.run_on_failure) [
        | inl on ↦ rw (waits, on) (h.0 waits on, queue-All rows h.1)
        | inr off ↦ rw (waits, off) (queue-All rows h.1)
      ]
      | inr other ↦ rw other (queue-All rows h.1)
    ]

    released-IsClosed : (rows : List Job) → IsClosedBelow rows → IsClosedBelow (released rows)
    unfolding sweep
    released-IsClosed [] c = tt
    released-IsClosed (r ∷ rows) c = (
      elim (Bool-cases (waits_on job r)) [
        | inl waits ↦ rw waits (λ p w. absurd (ground (arith, release_child_settles now job r)))
        | inr other ↦ rw other c.0
      ],
      released-IsClosed rows c.1,
    )

    released-SucceedsUnder :
        (r n : Job)
        → waits_on job r ≡ true
        → CancelChanges (release_child now job r) n
        → SucceedsUnder D r n
    unfolding release_child
    released-SucceedsUnder r n w (inl e) = elim (Bool-cases r.run_on_failure) [
      | inl on ↦ inr (inr (job, inl (refl, on), w, ground arith))
      | inr off ↦ inr (inl (w, off, ground arith))
    ]
    released-SucceedsUnder r n w (inr (p, _, w', _)) =
        absurd (ground (arith, release_child_settles now job r))

    kept-SucceedsUnder : (r n : Job) → CancelChanges r n → SucceedsUnder D r n
    unfolding cancel_child
    kept-SucceedsUnder r n (inl e) = inl e
    kept-SucceedsUnder r n (inr (p, d, w, e)) = inr (inr (p, inr d, w, e))

    SucceedsUnder-step :
        (rows after : List Job)
        → Zip CancelChanges (released rows) after
        → Zip (SucceedsUnder D) rows after
    unfolding sweep
    SucceedsUnder-step [] [] z = tt
    SucceedsUnder-step [] (n ∷ after) z = z
    SucceedsUnder-step (r ∷ rows) [] z = z
    SucceedsUnder-step (r ∷ rows) (n ∷ after) z = (
      elim (Bool-cases (waits_on job r)) [
        | inl waits ↦ released-SucceedsUnder r n waits (rw waits at z.0)
        | inr other ↦ kept-SucceedsUnder r n (rw other at z.0)
      ],
      SucceedsUnder-step rows after z.1,
    )

    pub cascade_success-SucceedsUnder :
        (rows : List Job)
        → All (λ r. waits_on job r ≡ true → r.run_on_failure ≡ true → D r.id) rows
        → IsClosedBelow rows
        → Zip (SucceedsUnder D) rows (cascade_children_on_parent_success now job rows)
    cascade_success-SucceedsUnder rows h c = SucceedsUnder-step rows _ (
        walk-Changes (cancel_child now) always (cancel_child_settles now) D
          (suc (waiting_count rows)) (queue rows) (released rows) (queue-All rows h)
          (released-IsClosed rows c) (cascade_success_returns rows))

    -- Let `D` be any set that holds the on_error jobs that wait on the finished job and, with a
    -- job, all jobs that wait on it. After the cascade of the success each row is as it was, or it
    -- is an on_done job that waited on the finished job and is now pending, or it waited on the
    -- finished job as an on_error job, or on a job in `D`, and is now cancelled.
    pub cascade_success_changes :
        (rows : List Job) (i : ℕ) (before after : Job)
        → All (λ r. waits_on job r ≡ true → r.run_on_failure ≡ true → D r.id) rows
        → IsClosedBelow rows
        → get_elem? rows i ≡ some before
        → get_elem? (cascade_children_on_parent_success now job rows) i ≡ some after
        → SucceedsUnder D before after
    cascade_success_changes rows i before after h c =
        Zip-at (SucceedsUnder D) rows (cascade_children_on_parent_success now job rows) i before
          after (cascade_success-SucceedsUnder rows h c)

  -- A row that the cascade cancelled.
  abbrev pub CancelledLeaves : List Job → Job → Job → Type 0
  CancelledLeaves final before after =
      is_waiting before.state ≡ true → after.state ≡ cancelled → NoWaitingChild before.id final

  pub everything-IsClosed : (rows : List Job) → IsClosedBelow (λ _. Unit) rows
  everything-IsClosed [] = tt
  everything-IsClosed (r ∷ rows) = ((λ p w q d. tt), everything-IsClosed rows)

  everything-All : (xs : List ℕ) → All (λ _. Unit {0}) xs
  everything-All [] = tt
  everything-All (x ∷ xs) = (tt, everything-All xs)

  -- Of a row before the second loop and after it: where it waited it leaves nothing waiting, and
  -- where it did not it stays.
  abbrev Second : List Job → Job → Job → Type 0
  Second final m a =
      (is_waiting m.state ≡ true → a.state ≡ cancelled → NoWaitingChild m.id final)
      × (is_waiting m.state ≡ false → a ≡ m)

  Second-make :
      (final : List Job) (m a : Job)
      → Leaves (cancel_child now) always (cancel_child_settles now) final m a
      → CancelChanges (λ _. Unit) m a
      → Second final m a
  Second-make final m a leaves (inl e) = ((λ w c. leaves w (ground arith) refl), (λ _. e))
  Second-make final m a leaves (inr (p, _, w, e)) =
      ((λ w' c. leaves w' (ground arith) refl), (λ n. absurd (ground arith)))

  CancelledLeaves-step :
      (final rows after : List Job)
      → All (λ k. NoWaitingChild k final) (queue rows)
      → Zip (Second final) (released rows) after
      → Zip (CancelledLeaves final) rows after
  unfolding sweep pushed release_child
  CancelledLeaves-step final [] [] q z = tt
  CancelledLeaves-step final [] (n ∷ after) q z = z
  CancelledLeaves-step final (r ∷ rows) [] q z = z
  CancelledLeaves-step final (r ∷ rows) (n ∷ after) q z = elim (Bool-cases (waits_on job r)) [
    | inl waits ↦ elim (Bool-cases r.run_on_failure) [
      | inl on ↦
          let q' : All (λ k. NoWaitingChild k final) (r.id ∷ queue rows) = rw (waits, on) at q in
          ((λ _ _. q'.0), CancelledLeaves-step final rows after q'.1 z.1)
      | inr off ↦
          let q' : All (λ k. NoWaitingChild k final) (queue rows) = rw (waits, off) at q in
          let same : n ≡ record r { state = pending; write_date = now } = ground (arith, z.0.1) in
          ((λ w c. absurd (ground arith)), CancelledLeaves-step final rows after q' z.1)
    ]
    | inr other ↦
        let q' : All (λ k. NoWaitingChild k final) (queue rows) = rw other at q in
        let z' : Second final r n = rw other at z.0 in
        (z'.0, CancelledLeaves-step final rows after q' z.1)
  ]

  pub cascade_success-NoWaitingChild :
      (rows : List Job) → NoWaitingChild job (cascade_children_on_parent_success now job rows)
  cascade_success-NoWaitingChild rows =
      walk-NoWaitingChild (cancel_child now) always (cancel_child_settles now)
        (suc (waiting_count rows)) (queue rows) (released rows) job (cascade_success_returns rows)
        (sweep-NoWaitingChild_self (release_child now) is_on_error (release_child_settles now) job
          rows)

  cascade_success-CancelledLeaves :
      (rows : List Job)
      → let final = cascade_children_on_parent_success now job rows in
        Zip (CancelledLeaves final) rows final
  cascade_success-CancelledLeaves rows =
      let final = cascade_children_on_parent_success now job rows in
      let ends = cascade_success_returns rows in
      let fuel = suc (waiting_count rows) in
      let settles = cancel_child_settles now in
      CancelledLeaves-step final rows final
        (walk_queue (cancel_child now) always settles fuel (queue rows) (released rows) ends)
        (Zip-both (Second-make final) (released rows) final
          (walk-Leaves (cancel_child now) always settles fuel (queue rows) (released rows) ends)
          (walk-Changes (cancel_child now) always settles (λ _. Unit) fuel (queue rows)
            (released rows) (everything-All (queue rows)) (everything-IsClosed (released rows))
            ends))

  -- If a row was waiting and is cancelled after the cascade of a success, then no row is left
  -- waiting on it, nor on the job whose success was passed on: the chain is settled however deep.
  pub cascade_success_strands_none :
      (rows : List Job) (i : ℕ) (before after : Job)
      → get_elem? rows i ≡ some before
      → get_elem? (cascade_children_on_parent_success now job rows) i ≡ some after
      → is_waiting before.state ≡ true
      → after.state ≡ cancelled
      → NoWaitingChild job (cascade_children_on_parent_success now job rows)
        × NoWaitingChild before.id (cascade_children_on_parent_success now job rows)
  cascade_success_strands_none rows i before after e f w c =
      let final = cascade_children_on_parent_success now job rows in
      (
        cascade_success-NoWaitingChild rows,
        Zip-at (CancelledLeaves final) rows final i before after
            (cascade_success-CancelledLeaves rows) e f w c,
      )
