-- ===== src/Graph/Cancel/Ends.antt =====
-- What grows less with each round of the cascade of a cancellation.
use odoo_job_worker.Base.{
  ℕ, ◌+◌, ◌≤◌, ◌<◌, ◌≡◌, refl, ap, Bool, true, false, not, ◌&&◌, ◌||◌, List, [], ◌∷◌, ◌++◌, All,
  All-map, length, length-append, count_if, update_if, Bool-cases, inl, inr, arith, ◌∙◌,
}
use odoo_job_worker.Job.{Job, is_waiting, waits_on, barred_by, with_id, write, waiting_count}
use odoo_job_worker.Graph.Children.{cancel}
use odoo_job_worker.Graph.Cancel.{ids_of, waiting_children, cancel_listed}

-- Whether a row with this id waits.
abbrev pub still_waits : ℕ → List Job → Bool
still_waits k [] = false
still_waits k (r ∷ rows) = is_waiting r.state && with_id k r || still_waits k rows

-- The entries of a queue that do not wait.
abbrev pub settled_count : List ℕ → List Job → ℕ
settled_count queue rows = count_if (λ k. not (still_waits k rows)) queue

pub write-waiting_count :
    (now k : ℕ) (rows : List Job) → waiting_count (write k (cancel now) rows) ≤ waiting_count rows
unfolding cancel
write-waiting_count now k [] = omega arith
write-waiting_count now k (r ∷ rows) = ground (arith, write-waiting_count now k rows)

pub write-waiting_count_lt :
    (now k : ℕ) (rows : List Job)
    → still_waits k rows ≡ true
    → waiting_count (write k (cancel now) rows) < waiting_count rows
unfolding cancel
write-waiting_count_lt now k [] h = cc
write-waiting_count_lt now k (r ∷ rows) h =
    ground (arith, write-waiting_count now k rows, write-waiting_count_lt now k rows)

still_waits-write :
    (now k j : ℕ) (rows : List Job)
    → still_waits k rows ≡ false
    → still_waits j (write k (cancel now) rows) ≡ still_waits j rows
unfolding cancel
still_waits-write now k j [] h = refl
still_waits-write now k j (r ∷ rows) h = ground (arith, still_waits-write now k j rows)

pub settled_count-write :
    (now k : ℕ) (queue : List ℕ) (rows : List Job)
    → still_waits k rows ≡ false
    → settled_count queue (write k (cancel now) rows) ≡ settled_count queue rows
settled_count-write now k [] rows h = refl
settled_count-write now k (j ∷ queue) rows h =
    rw (still_waits-write now k j rows h, settled_count-write now k queue rows h)

pub waiting_children-still_waits :
    (k : ℕ) (rows : List Job) → All (λ c. still_waits c rows ≡ true) (waiting_children k rows)
unfolding waiting_children
waiting_children-still_waits k [] = tt
waiting_children-still_waits k (r ∷ rows) = elim (Bool-cases (waits_on k r)) [
  | inl hit ↦ rw hit (ground arith, later (waiting_children-still_waits k rows))
  | inr miss ↦ rw miss (later (waiting_children-still_waits k rows))
]
  where
    later :
        All (λ c. still_waits c rows ≡ true) (ids_of (waits_on k) rows)
        → All (λ c. still_waits c (r ∷ rows) ≡ true) (ids_of (waits_on k) rows)
    later h =
        All-map {Q = λ c. still_waits c (r ∷ rows) ≡ true} (λ c e. ground arith)
          (ids_of (waits_on k) rows) h

pub settled_count-append :
    (queue new : List ℕ) (rows : List Job)
    → All (λ c. still_waits c rows ≡ true) new
    → settled_count (queue ++ new) rows ≡ settled_count queue rows
settled_count-append [] [] rows h = refl
settled_count-append [] (c ∷ new) rows h = rw h.0 (settled_count-append [] new rows h.1)
settled_count-append (k ∷ queue) new rows h = rw (settled_count-append queue new rows h)

ids_of-add-waiting_count :
    (now job : ℕ) (rows : List Job)
    → length (ids_of (barred_by job) rows)
        + waiting_count (update_if (barred_by job) (cancel now) rows)
      ≤ waiting_count rows
unfolding ids_of cancel
ids_of-add-waiting_count now job [] = omega arith
ids_of-add-waiting_count now job (r ∷ rows) = ground (arith, ids_of-add-waiting_count now job rows)

ids_of-nil :
    (p : Job → Bool) (f : Job → Job) (rows : List Job)
    → length (ids_of p rows) ≡ 0
    → update_if p f rows ≡ rows
unfolding ids_of
ids_of-nil p f [] h = refl
ids_of-nil p f (r ∷ rows) h = elim (Bool-cases (p r)) [
  | inl hit ↦ absurd (omega (arith, rw hit at h))
  | inr miss ↦ rw miss (ap (λ rest. r ∷ rest) (ids_of-nil p f rows (rw miss at h)))
]

pub cancel_listed-waiting_count :
    (now : ℕ) (jobs : List ℕ) (rows : List Job)
    → length (cancel_listed now jobs rows).1 + waiting_count (cancel_listed now jobs rows).0
      ≤ waiting_count rows
unfolding cancel_listed
cancel_listed-waiting_count now [] rows = omega arith
cancel_listed-waiting_count now (job ∷ jobs) rows =
    let next = update_if (barred_by job) (cancel now) rows in
    omega (
      arith,
      length-append (ids_of (barred_by job) rows) (cancel_listed now jobs next).1,
      ids_of-add-waiting_count now job rows,
      cancel_listed-waiting_count now jobs next,
    )

pub cancel_listed-nil :
    (now : ℕ) (jobs : List ℕ) (rows : List Job)
    → length (cancel_listed now jobs rows).1 ≡ 0
    → (cancel_listed now jobs rows).0 ≡ rows
unfolding cancel_listed
cancel_listed-nil now [] rows h = refl
cancel_listed-nil now (job ∷ jobs) rows h =
    let next = update_if (barred_by job) (cancel now) rows in
    let added = length-append (ids_of (barred_by job) rows) (cancel_listed now jobs next).1 in
    cancel_listed-nil now jobs next (omega (arith, added, h))
    ∙ ids_of-nil (barred_by job) (cancel now) rows (omega (arith, added, h))
