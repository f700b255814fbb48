-- ===== src/Graph/Walk/Laws.antt =====
-- Lemmas on the walk: its end, what it settles, and what it changes.
use mathlib.Core.Option.{some-injective}
use odoo_job_worker.Base.{
  ℕ, zero, suc, ◌+◌, ◌≤◌, ◌≡◌, refl, Bool, true, false, some, List, [], ◌∷◌, ◌++◌, All, All-append,
  All-split, Zip, length, length-append, Bool-cases, ◌⊎◌, inl, inr, subst, arith,
}
use odoo_job_worker.Job.{Job, is_waiting, waits_on, waiting_count}
use odoo_job_worker.Graph.Walk.{sweep, pushed, walk}

-- No row waits on this parent.
abbrev pub NoWaitingChild : ℕ → List Job → Type 0
NoWaitingChild parent rows = All (λ r. waits_on parent r ≡ false) rows

module _ (settle : ℕ → Job → Job) (pushes : Job → Bool)
    (settled : (parent : ℕ) (r : Job) → is_waiting (settle parent r).state ≡ false) where
  pub sweep-NoWaitingChild_self :
      (parent : ℕ) (rows : List Job) → NoWaitingChild parent (sweep settle pushes parent rows)
  unfolding sweep
  sweep-NoWaitingChild_self parent [] = tt
  sweep-NoWaitingChild_self parent (r ∷ rows) =
      (ground (arith, settled parent r), sweep-NoWaitingChild_self parent rows)

  sweep-NoWaitingChild :
      (parent other : ℕ) (rows : List Job)
      → NoWaitingChild other rows
      → NoWaitingChild other (sweep settle pushes parent rows)
  unfolding sweep
  sweep-NoWaitingChild parent other [] h = tt
  sweep-NoWaitingChild parent other (r ∷ rows) h =
      (ground (arith, settled parent r), sweep-NoWaitingChild parent other rows h.1)

  pub walk-NoWaitingChild :
      (fuel : ℕ) (queue : List ℕ) (rows : List Job) {after : List Job} (other : ℕ)
      → walk settle pushes fuel queue rows ≡ some after
      → NoWaitingChild other rows
      → NoWaitingChild other after
  unfolding walk
  walk-NoWaitingChild zero [] rows other e h = subst (NoWaitingChild other) (some-injective _ _ e) h
  walk-NoWaitingChild (suc fuel) [] rows other e h =
      subst (NoWaitingChild other) (some-injective _ _ e) h
  walk-NoWaitingChild zero (job ∷ queue) rows other e h = cc
  walk-NoWaitingChild (suc fuel) (job ∷ queue) rows other e h =
      walk-NoWaitingChild fuel (queue ++ pushed settle pushes job rows)
        (sweep settle pushes job rows) other e (sweep-NoWaitingChild job other rows h)

  pub pushed-add-waiting_count :
      (parent : ℕ) (rows : List Job)
      → length (pushed settle pushes parent rows) + waiting_count (sweep settle pushes parent rows)
        ≤ waiting_count rows
  unfolding pushed sweep
  pushed-add-waiting_count parent [] = omega arith
  pushed-add-waiting_count parent (r ∷ rows) =
      ground (arith, settled parent r, pushed-add-waiting_count parent rows)

  -- The walk ends: a row that is queued has just left `waiting`, and none enters it.
  pub walk_returns :
      (fuel : ℕ) (queue : List ℕ) (rows : List Job)
      → length queue + waiting_count rows ≤ fuel
      → (after : List Job) × (walk settle pushes fuel queue rows ≡ some after)
  unfolding walk
  walk_returns zero [] rows h = (rows, refl)
  walk_returns (suc fuel) [] rows h = (rows, refl)
  walk_returns zero (job ∷ queue) rows h = absurd (omega arith)
  walk_returns (suc fuel) (job ∷ queue) rows h =
      walk_returns fuel (queue ++ pushed settle pushes job rows) (sweep settle pushes job rows) (
        omega (
          arith,
          length-append queue (pushed settle pushes job rows),
          pushed-add-waiting_count job rows,
        ))

  -- A row that left `waiting` for good has no child that still waits.
  abbrev pub Leaves : List Job → Job → Job → Type 0
  Leaves final before after =
      is_waiting before.state ≡ true
      → is_waiting after.state ≡ false
      → pushes before ≡ true
      → NoWaitingChild before.id final

  Leaves-step :
      (parent : ℕ) (rows : List Job) (after final : List Job)
      → All (λ k. NoWaitingChild k final) (pushed settle pushes parent rows)
      → Zip (Leaves final) (sweep settle pushes parent rows) after
      → Zip (Leaves final) rows after
  unfolding pushed sweep
  Leaves-step parent [] [] final q z = tt
  Leaves-step parent [] (n ∷ after) final q z = z
  Leaves-step parent (r ∷ rows) [] final q z = z
  Leaves-step parent (r ∷ rows) (n ∷ after) final q z = elim (Bool-cases (waits_on parent r)) [
    | inl waits ↦ elim (Bool-cases (pushes r)) [
      | inl queued ↦
          let q' : All (λ k. NoWaitingChild k final) (r.id ∷ pushed settle pushes parent rows) =
            rw (waits, queued) at q in
          ((λ _ _ _. q'.0), Leaves-step parent rows after final q'.1 z.1)
      | inr kept ↦
          let q' : All (λ k. NoWaitingChild k final) (pushed settle pushes parent rows) =
            rw (waits, kept) at q in
          ((λ _ _ p. cc), Leaves-step parent rows after final q' z.1)
    ]
    | inr other ↦
        let q' : All (λ k. NoWaitingChild k final) (pushed settle pushes parent rows) =
          rw other at q in
        ((rw other at z.0), Leaves-step parent rows after final q' z.1)
  ]

  Leaves-refl : (rows final : List Job) → Zip (Leaves final) rows rows
  Leaves-refl [] final = tt
  Leaves-refl (r ∷ rows) final = ((λ w n _. cc), Leaves-refl rows final)

  pub walk_queue :
      (fuel : ℕ) (queue : List ℕ) (rows : List Job) {after : List Job}
      → walk settle pushes fuel queue rows ≡ some after
      → All (λ k. NoWaitingChild k after) queue
  unfolding walk
  walk_queue zero [] rows e = tt
  walk_queue (suc fuel) [] rows e = tt
  walk_queue zero (job ∷ queue) rows e = cc
  walk_queue (suc fuel) (job ∷ queue) rows e = (
    walk-NoWaitingChild fuel (queue ++ pushed settle pushes job rows) (sweep settle pushes job rows)
        job e (sweep-NoWaitingChild_self job rows),
    (All-split _ queue (pushed settle pushes job rows) (
        walk_queue fuel (queue ++ pushed settle pushes job rows) (sweep settle pushes job rows)
          e)).0,
  )

  -- Nothing is left waiting on a queued job, or on a job that the walk settled and queued.
  pub walk-Leaves :
      (fuel : ℕ) (queue : List ℕ) (rows : List Job) {after : List Job}
      → walk settle pushes fuel queue rows ≡ some after
      → Zip (Leaves after) rows after
  unfolding walk
  walk-Leaves zero [] rows {after} e =
      subst (Zip (Leaves after) rows) (some-injective _ _ e) (Leaves-refl rows after)
  walk-Leaves (suc fuel) [] rows {after} e =
      subst (Zip (Leaves after) rows) (some-injective _ _ e) (Leaves-refl rows after)
  walk-Leaves zero (job ∷ queue) rows e = cc
  walk-Leaves (suc fuel) (job ∷ queue) rows {after} e =
      let new = pushed settle pushes job rows in
      let next = sweep settle pushes job rows in
      Leaves-step job rows after after
        (All-split _ queue new (walk_queue fuel (queue ++ new) next e)).1
        (walk-Leaves fuel (queue ++ new) next e)

-- The walk changes a row only by settling it under its parent, and only where that parent lies in
-- every set of jobs that holds the queue and, with a job, those of its waiting children that the
-- walk queues.
module _ (settle : ℕ → Job → Job) (pushes : Job → Bool)
    (settled : (parent : ℕ) (r : Job) → is_waiting (settle parent r).state ≡ false)
    (D : ℕ → Type 0) where
  abbrev pub IsClosed : List Job → Type 0
  IsClosed rows = All (λ r. (p : ℕ) → waits_on p r ≡ true → pushes r ≡ true → D p → D r.id) rows

  abbrev pub Changes : Job → Job → Type 0
  Changes before after =
      (after ≡ before) ⊎ ((p : ℕ) × D p × (waits_on p before ≡ true) × (after ≡ settle p before))

  sweep-IsClosed :
      (parent : ℕ) (rows : List Job) → IsClosed rows → IsClosed (sweep settle pushes parent rows)
  unfolding sweep
  sweep-IsClosed parent [] c = tt
  sweep-IsClosed parent (r ∷ rows) c = (
    elim (Bool-cases (waits_on parent r)) [
      | inl waits ↦ rw waits (λ p w. absurd (ground (arith, settled parent r)))
      | inr other ↦ rw other c.0
    ],
    sweep-IsClosed parent rows c.1,
  )

  pushed-All :
      (parent : ℕ) (rows : List Job)
      → D parent
      → IsClosed rows
      → All D (pushed settle pushes parent rows)
  unfolding pushed
  pushed-All parent [] d c = tt
  pushed-All parent (r ∷ rows) d c = elim (Bool-cases (waits_on parent r)) [
    | inl waits ↦ elim (Bool-cases (pushes r)) [
      | inl queued ↦ rw (waits, queued) (c.0 parent waits queued d, pushed-All parent rows d c.1)
      | inr kept ↦ rw (waits, kept) (pushed-All parent rows d c.1)
    ]
    | inr other ↦ rw other (pushed-All parent rows d c.1)
  ]

  Changes-refl : (rows : List Job) → Zip Changes rows rows
  Changes-refl [] = tt
  Changes-refl (r ∷ rows) = (inl refl, Changes-refl rows)

  Changes-settled :
      (parent : ℕ) (r n : Job)
      → D parent
      → waits_on parent r ≡ true
      → Changes (settle parent r) n
      → Changes r n
  Changes-settled parent r n d w (inl e) = inr (parent, d, w, e)
  Changes-settled parent r n d w (inr (p, _, w', _)) = absurd (ground (arith, settled parent r))

  sweep-Changes :
      (parent : ℕ) (rows after : List Job)
      → D parent
      → Zip Changes (sweep settle pushes parent rows) after
      → Zip Changes rows after
  unfolding sweep
  sweep-Changes parent [] [] d z = tt
  sweep-Changes parent [] (n ∷ after) d z = z
  sweep-Changes parent (r ∷ rows) [] d z = z
  sweep-Changes parent (r ∷ rows) (n ∷ after) d z = (
    elim (Bool-cases (waits_on parent r)) [
      | inl waits ↦ Changes-settled parent r n d waits (rw waits at z.0)
      | inr other ↦ rw other at z.0
    ],
    sweep-Changes parent rows after d z.1,
  )

  pub walk-Changes :
      (fuel : ℕ) (queue : List ℕ) (rows : List Job) {after : List Job}
      → All D queue
      → IsClosed rows
      → walk settle pushes fuel queue rows ≡ some after
      → Zip Changes rows after
  unfolding walk
  walk-Changes zero [] rows d c e =
      subst (Zip Changes rows) (some-injective _ _ e) (Changes-refl rows)
  walk-Changes (suc fuel) [] rows d c e =
      subst (Zip Changes rows) (some-injective _ _ e) (Changes-refl rows)
  walk-Changes zero (job ∷ queue) rows d c e = cc
  walk-Changes (suc fuel) (job ∷ queue) rows {after} d c e = sweep-Changes job rows after d.0 (
      walk-Changes fuel (queue ++ pushed settle pushes job rows) (sweep settle pushes job rows)
        (All-append D queue (pushed settle pushes job rows) d.1 (pushed-All job rows d.0 c))
        (sweep-IsClosed job rows c) e)
