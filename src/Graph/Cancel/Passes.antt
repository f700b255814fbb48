-- ===== src/Graph/Cancel/Passes.antt =====
-- One statement and one write of the cascade of a cancellation, and what they leave waiting.

use odoo_job_worker.Base.{
  ℕ, ◌≡◌, refl, Bool, true, false, ◌&&◌, List, [], ◌∷◌, ◌++◌, All, All-map, Zip, update_if, ◌==◌,
  member, Bool-cases, inl, inr, arith,
}
use odoo_job_worker.Job.{Job, is_waiting, waits_on, barred_by, lists_dependency, with_id, write}
use odoo_job_worker.Graph.Walk.Laws.{NoWaitingChild}
use odoo_job_worker.Graph.Children.{cancel}
use odoo_job_worker.Graph.Cancel.{ids_of, waiting_children, cancel_listed}
use odoo_job_worker.Graph.Cancel.Settled.{
  IsQuiet, NoWaitingBarrier, Cancels, Leaves, Settles, IsQuiet-Cancels, Settles-Cancels,
  Settles-both, Settles-refl,
}

-- No row with this id waits.
abbrev pub NotWaiting : ℕ → List Job → Type 0
NotWaiting k rows = IsQuiet (λ i _. i == k) rows

member-append_left : (k : ℕ) (xs ys : List ℕ) → member k xs ≡ true → member k (xs ++ ys) ≡ true
member-append_left k [] ys h = cc
member-append_left k (x ∷ xs) ys h = ground (arith, member-append_left k xs ys)

member-append_right : (k : ℕ) (xs ys : List ℕ) → member k ys ≡ true → member k (xs ++ ys) ≡ true
member-append_right k [] ys h = h
member-append_right k (x ∷ xs) ys h = ground (arith, member-append_right k xs ys h)

pub All-both : (P Q : ℕ → Type 0) (xs : List ℕ) → All P xs → All Q xs → All (λ k. P k × Q k) xs
All-both P Q [] h k = tt
All-both P Q (x ∷ xs) h k = ((h.0, k.0), All-both P Q xs h.1 k.1)

module _ (now : ℕ) where
  -- Rows that meet a test are cancelled, and owed.
  update-Settles :
      (p : Job → Bool) (owed : List ℕ)
      → (rows final : List Job) → All (λ r. p r ≡ true → member r.id owed ≡ true) rows
      → Zip (λ b a. Cancels now b a × Leaves owed final b a) rows (update_if p (cancel now) rows)
  update-Settles p owed [] final h = tt
  update-Settles p owed (r ∷ rows) final h = (
    elim (Bool-cases (p r)) [
      | inl hit ↦ rw hit ((inr refl, (λ w n. inl (h.0 hit))))
      | inr miss ↦ rw miss ((inl refl, (λ w n. cc)))
    ],
    update-Settles p owed rows final h.1,
  )

  pub update-Cancels :
      (p : Job → Bool) (rows : List Job) → Zip (Cancels now) rows (update_if p (cancel now) rows)
  update-Cancels p [] = tt
  update-Cancels p (r ∷ rows) = (
    elim (Bool-cases (p r)) [ inl hit ↦ rw hit (inr refl) | inr miss ↦ rw miss (inl refl) ],
    update-Cancels p rows,
  )

  ids_of-member_in :
      (p : Job → Bool) (owed : List ℕ) (rows : List Job)
      → ((k : ℕ) → member k (ids_of p rows) ≡ true → member k owed ≡ true)
      → All (λ r. p r ≡ true → member r.id owed ≡ true) rows
  unfolding ids_of
  ids_of-member_in p owed [] h = tt
  ids_of-member_in p owed (r ∷ rows) h = elim (Bool-cases (p r)) [
    | inl hit ↦
        let h' : (k : ℕ) → member k (r.id ∷ ids_of p rows) ≡ true → member k owed ≡ true =
          rw hit at h in
        ((λ _. h' r.id (ground arith)), ids_of-member_in p owed rows (λ k m. h' k (ground arith)))
    | inr miss ↦ ((λ e. cc), ids_of-member_in p owed rows (rw miss at h))
  ]

  pub ids_of-member :
      (p : Job → Bool) (rows : List Job)
      → All (λ r. p r ≡ true → member r.id (ids_of p rows) ≡ true) rows
  ids_of-member p rows = ids_of-member_in p (ids_of p rows) rows (λ k m. m)

  with_id-member :
      (k : ℕ) (rows : List Job) → All (λ r. with_id k r ≡ true → member r.id (k ∷ []) ≡ true) rows
  with_id-member k [] = tt
  with_id-member k (r ∷ rows) = ((λ e. ground arith), with_id-member k rows)

  pub write-Settles :
      (k : ℕ) (rows : List Job) → Settles now (k ∷ []) rows (write k (cancel now) rows)
  write-Settles k rows =
      update-Settles (with_id k) (k ∷ []) rows (write k (cancel now) rows) (with_id-member k rows)

  pub write-NotWaiting : (k : ℕ) (rows : List Job) → NotWaiting k (write k (cancel now) rows)
  unfolding cancel
  write-NotWaiting k [] = tt
  write-NotWaiting k (r ∷ rows) = (ground arith, write-NotWaiting k rows)

  update-NoWaitingBarrier :
      (job : ℕ) (rows : List Job)
      → NoWaitingBarrier job (update_if (barred_by job) (cancel now) rows)
  unfolding cancel
  update-NoWaitingBarrier job [] = tt
  update-NoWaitingBarrier job (r ∷ rows) = (ground arith, update-NoWaitingBarrier job rows)

  pub barriers_stay :
      (jobs : List ℕ) (rows after : List Job)
      → Zip (Cancels now) rows after
      → All (λ k. NoWaitingBarrier k rows) jobs
      → All (λ k. NoWaitingBarrier k after) jobs
  barriers_stay jobs rows after z h =
      All-map {Q = λ k. NoWaitingBarrier k after}
        (λ k. IsQuiet-Cancels now (λ i s. lists_dependency s.dependency_job_ids k) rows after z)
        jobs h

  pub cancel_listed_lem :
      (jobs : List ℕ) (rows : List Job)
      → Settles now (cancel_listed now jobs rows).1 rows (cancel_listed now jobs rows).0
        × All (λ k. NoWaitingBarrier k (cancel_listed now jobs rows).0) jobs
  unfolding cancel_listed
  cancel_listed_lem [] rows = (Settles-refl now rows, tt)
  cancel_listed_lem (job ∷ jobs) rows =
      let next = update_if (barred_by job) (cancel now) rows in
      let ids = ids_of (barred_by job) rows in
      let (settles, quiet) = cancel_listed_lem jobs next in
      let more = (cancel_listed now jobs next).1 in
      let after = (cancel_listed now jobs next).0 in
      (
        Settles-both now ids more (ids ++ more) (λ k. member-append_left k ids more)
            (λ k. member-append_right k ids more) rows next after
            (update-Settles (barred_by job) ids rows next (ids_of-member (barred_by job) rows))
            settles,
        (
          IsQuiet-Cancels now (λ i s. lists_dependency s.dependency_job_ids job) next after
              (Settles-Cancels now more next after settles) (update-NoWaitingBarrier job rows),
          quiet,
        ),
      )

  -- Where no child of a job waits any more, no row waits on it.
  child_settled :
      (k : ℕ) (b a : Job)
      → Cancels now b a
      → is_waiting a.state && a.id == b.id ≡ false
      → waits_on k a ≡ false
  unfolding cancel
  child_settled k b a (inl e) h = ground arith
  child_settled k b a (inr e) h = ground arith

  other_settled :
      (k : ℕ) (b a : Job) → Cancels now b a → waits_on k b ≡ false → waits_on k a ≡ false
  unfolding cancel
  other_settled k b a (inl e) h = rw e h
  other_settled k b a (inr e) h = rw e refl

  pub children_settled :
      (k : ℕ) (rows after : List Job)
      → Zip (Cancels now) rows after
      → All (λ c. NotWaiting c after) (waiting_children k rows)
      → NoWaitingChild k after
  unfolding waiting_children ids_of
  children_settled k [] [] z h = tt
  children_settled k [] (a ∷ after) z h = elim z [ ]
  children_settled k (b ∷ rows) [] z h = tt
  children_settled k (b ∷ rows) (a ∷ after) z h = elim (Bool-cases (waits_on k b)) [
    | inl hit ↦
        let h' : All (λ c. NotWaiting c (a ∷ after)) (b.id ∷ ids_of (waits_on k) rows) =
          rw hit at h in
        (
          child_settled k b a z.0 h'.0.0,
          children_settled k rows after z.1
              (All-map {Q = λ c. NotWaiting c after} (λ c x. x.1) (ids_of (waits_on k) rows) h'.1),
        )
    | inr miss ↦
        let h' : All (λ c. NotWaiting c (a ∷ after)) (ids_of (waits_on k) rows) = rw miss at h in
        (
          other_settled k b a z.0 miss,
          children_settled k rows after z.1
              (All-map {Q = λ c. NotWaiting c after} (λ c x. x.1) (ids_of (waits_on k) rows) h'),
        )
  ]
