-- ===== src/Graph/Cancel/Spares.antt =====
-- The rows that the cascade of a cancellation leaves alone.
use mathlib.Core.Option.{some-injective}
use odoo_job_worker.Base.{
  and_then-some, ℕ, zero, suc, ◌≡◌, refl, subst, Bool, true, some, List, [], ◌∷◌, ◌++◌, All,
  All-map, All-append, Zip, update_if, ◌==◌, member, Bool-cases, inl, inr, ◌⊎◌, arith,
}
use odoo_job_worker.Job.{Job, is_waiting, waits_on, barred_by, write}
use odoo_job_worker.Graph.Children.{cancel}
use odoo_job_worker.Graph.Cancel.{
  Pass, follow, ids_of, waiting_children, cancel_listed, cancel_queue, cancel_dependents,
  cancel_each,
}
use odoo_job_worker.Graph.Cancel.Settled.{Cancels, Settles-Cancels}
use odoo_job_worker.Graph.Cancel.Passes.{ids_of-member, write-Settles, update-Cancels}

-- A row with this id waits.
abbrev pub WaitsIn : List Job → ℕ → Type 0
WaitsIn rows k = member k (ids_of (λ r. is_waiting r.state) rows) ≡ true

-- A row is as it was, or its id is one of those meant.
abbrev pub Spares : (ℕ → Type 0) → Job → Job → Type 0
Spares meant before after = (after ≡ before) ⊎ meant before.id

-- The ids of what waits in these rows are among those meant.
abbrev pub IsWithin : (ℕ → Type 0) → List Job → Type 0
IsWithin meant rows = (k : ℕ) → WaitsIn rows k → meant k

module _ (now : ℕ) where
  still_waits :
      (k : ℕ) (b a : Job) (rows after : List Job)
      → Cancels now b a
      → IsWithin (WaitsIn rows) after
      → WaitsIn (a ∷ after) k
      → WaitsIn (b ∷ rows) k
  unfolding ids_of cancel
  still_waits k b a rows after c w h = ground (arith, w k)

  pub Cancels-IsWithin :
      (rows after : List Job) → Zip (Cancels now) rows after → IsWithin (WaitsIn rows) after
  Cancels-IsWithin [] [] z k h = h
  Cancels-IsWithin [] (a ∷ after) z k h = elim z [ ]
  Cancels-IsWithin (b ∷ rows) [] z k h = elim z [ ]
  Cancels-IsWithin (b ∷ rows) (a ∷ after) z k h =
      still_waits k b a rows after z.0 (Cancels-IsWithin rows after z.1) h

  module _ (meant : ℕ → Type 0) where
    Spares-trans : (b m a : Job) → Spares meant b m → Spares meant m a → Spares meant b a
    Spares-trans b m a (inr w) k = inr w
    Spares-trans b m a (inl e) (inl f) = inl (rw (f, e) refl)
    Spares-trans b m a (inl e) (inr w) = inr (subst (λ (r : Job). meant r.id) e w)

    pub Zip-Spares-trans :
        (rows mid after : List Job)
        → Zip (Spares meant) rows mid
        → Zip (Spares meant) mid after
        → Zip (Spares meant) rows after
    Zip-Spares-trans [] [] after y z = z
    Zip-Spares-trans [] (m ∷ mid) after y z = elim y [ ]
    Zip-Spares-trans (b ∷ rows) [] after y z = elim y [ ]
    Zip-Spares-trans (b ∷ rows) (m ∷ mid) [] y z = z
    Zip-Spares-trans (b ∷ rows) (m ∷ mid) (a ∷ after) y z =
        (Spares-trans b m a y.0 z.0, Zip-Spares-trans rows mid after y.1 z.1)

    pub Zip-Spares-refl : (rows : List Job) → Zip (Spares meant) rows rows
    Zip-Spares-refl [] = tt
    Zip-Spares-refl (r ∷ rows) = (inl refl, Zip-Spares-refl rows)

    pub IsWithin-trans :
        (rows after : List Job)
        → IsWithin meant rows
        → Zip (Cancels now) rows after
        → IsWithin meant after
    IsWithin-trans rows after h z k w = h k (Cancels-IsWithin rows after z k w)

    update-Spares :
        (p : Job → Bool) (rows : List Job)
        → All (λ r. p r ≡ true → meant r.id) rows
        → Zip (Spares meant) rows (update_if p (cancel now) rows)
    update-Spares p [] h = tt
    update-Spares p (r ∷ rows) h = (
      elim (Bool-cases (p r)) [ inl hit ↦ rw hit (inr (h.0 hit)) | inr miss ↦ rw miss (inl refl) ],
      update-Spares p rows h.1,
    )

    -- Rows that meet a test that only waiting rows meet.
    waiting-All :
        (p : Job → Bool) (rows : List Job)
        → ((r : Job) → p r ≡ true → is_waiting r.state ≡ true)
        → IsWithin meant rows
        → All (λ r. p r ≡ true → meant r.id) rows
    waiting-All p rows waits h =
        All-map {Q = λ r. p r ≡ true → meant r.id} (λ r w m. h r.id (w (waits r m))) rows
          (ids_of-member now (λ r. is_waiting r.state) rows)

    ids_of-All :
        (p : Job → Bool) (rows : List Job)
        → All (λ r. p r ≡ true → meant r.id) rows
        → All meant (ids_of p rows)
    unfolding ids_of
    ids_of-All p [] h = tt
    ids_of-All p (r ∷ rows) h = elim (Bool-cases (p r)) [
      | inl hit ↦ rw hit (h.0 hit, ids_of-All p rows h.1)
      | inr miss ↦ rw miss (ids_of-All p rows h.1)
    ]

    waits_on-waits : (job : ℕ) (r : Job) → waits_on job r ≡ true → is_waiting r.state ≡ true
    waits_on-waits job r h = ground arith

    barred_by-waits : (job : ℕ) (r : Job) → barred_by job r ≡ true → is_waiting r.state ≡ true
    barred_by-waits job r h = ground arith

    children-All :
        (job : ℕ) (rows : List Job) → IsWithin meant rows → All meant (waiting_children job rows)
    unfolding waiting_children
    children-All job rows h =
        ids_of-All (waits_on job) rows (waiting-All (waits_on job) rows (waits_on-waits job) h)

    pub write-Spares :
        (job : ℕ) (rows : List Job)
        → meant job
        → Zip (Spares meant) rows (write job (cancel now) rows)
    write-Spares job [] w = tt
    write-Spares job (r ∷ rows) w = (
      elim (Bool-cases (r.id == job)) [
        | inl hit ↦ let same : job ≡ r.id = ground arith in rw hit (inr (subst meant same w))
        | inr miss ↦ rw miss (inl refl)
      ],
      write-Spares job rows w,
    )

    listed-Spares :
        (jobs : List ℕ) (rows : List Job)
        → IsWithin meant rows
        → Zip (Spares meant) rows (cancel_listed now jobs rows).0
          × IsWithin meant (cancel_listed now jobs rows).0
    unfolding cancel_listed
    listed-Spares [] rows h = (Zip-Spares-refl rows, h)
    listed-Spares (job ∷ jobs) rows h =
        let next = update_if (barred_by job) (cancel now) rows in
        let (spared, within) =
          listed-Spares jobs next
            (IsWithin-trans rows next h (update-Cancels now (barred_by job) rows)) in
        (
          Zip-Spares-trans rows next (cancel_listed now jobs next).0
              (update-Spares (barred_by job) rows
                (waiting-All (barred_by job) rows (barred_by-waits job) h))
              spared,
          within,
        )

    follow-Spares :
        (ids : List ℕ) (listed : List Job) (each next : Pass)
        → ((js : List ℕ) (xs after : List Job)
            → IsWithin meant xs
            → each js xs ≡ some after
            → Zip (Spares meant) xs after × IsWithin meant after)
        → ((js : List ℕ) (xs after : List Job)
            → IsWithin meant xs
            → next js xs ≡ some after
            → Zip (Spares meant) xs after × IsWithin meant after)
        → IsWithin meant listed
        → (after : List Job) → follow listed ids each next ≡ some after
        → Zip (Spares meant) listed after × IsWithin meant after
    follow-Spares [] listed each next f g h after e =
        subst (λ (xs : List Job). Zip (Spares meant) listed xs × IsWithin meant xs)
          (some-injective _ _ e) (Zip-Spares-refl listed, h)
    follow-Spares (job ∷ rest) listed each next f g h after e =
        let (mid, first, then_) =
          and_then-some (each (job ∷ rest) listed) (next (job ∷ rest)) after e in
        let (s1, h1) = f (job ∷ rest) listed mid h first in
        let (s2, h2) = g (job ∷ rest) mid after h1 then_ in
        (Zip-Spares-trans listed mid after s1 s2, h2)

    mutual
      unfolding cancel_queue cancel_dependents cancel_each

      pub queue-Spares :
          (fuel : ℕ) (queue : List ℕ) (rows after : List Job)
          → All meant queue
          → IsWithin meant rows
          → cancel_queue fuel now queue rows ≡ some after
          → Zip (Spares meant) rows after × IsWithin meant after
      queue-Spares zero queue rows after w h e = cc
      queue-Spares (suc fuel) [] rows after w h e =
          subst (λ (xs : List Job). Zip (Spares meant) rows xs × IsWithin meant xs)
            (some-injective _ _ e) (Zip-Spares-refl rows, h)
      queue-Spares (suc fuel) (job ∷ queue) rows after w h e =
          let written = write job (cancel now) rows in
          let children = waiting_children job written in
          let (mid, first, rest) =
            and_then-some (cancel_dependents fuel now (job ∷ []) written)
              (cancel_queue fuel now (queue ++ children)) after e in
          let within =
            IsWithin-trans rows written h
              (Settles-Cancels now (job ∷ []) rows written (write-Settles now job rows)) in
          let (s1, h1) = dependents-Spares fuel (job ∷ []) written mid within first in
          let (s2, h2) =
            queue-Spares fuel (queue ++ children) mid after
              (All-append meant queue children w.1 (children-All job written within)) h1 rest in
          (
            Zip-Spares-trans rows written after (write-Spares job rows w.0)
                (Zip-Spares-trans written mid after s1 s2),
            h2,
          )

      pub dependents-Spares :
          (fuel : ℕ) (jobs : List ℕ) (rows after : List Job)
          → IsWithin meant rows
          → cancel_dependents fuel now jobs rows ≡ some after
          → Zip (Spares meant) rows after × IsWithin meant after
      dependents-Spares zero jobs rows after h e = cc
      dependents-Spares (suc fuel) jobs rows after h e =
          let (s, within) = listed-Spares jobs rows h in
          let listed = (cancel_listed now jobs rows).0 in
          let (s', within') =
            follow-Spares (cancel_listed now jobs rows).1 listed (cancel_each fuel now)
              (cancel_dependents fuel now) (each-Spares fuel) (dependents-Spares fuel) within after
              e in
          (Zip-Spares-trans rows listed after s s', within')

      pub each-Spares :
          (fuel : ℕ) (jobs : List ℕ) (rows after : List Job)
          → IsWithin meant rows
          → cancel_each fuel now jobs rows ≡ some after
          → Zip (Spares meant) rows after × IsWithin meant after
      each-Spares zero jobs rows after h e = cc
      each-Spares (suc fuel) [] rows after h e =
          subst (λ (xs : List Job). Zip (Spares meant) rows xs × IsWithin meant xs)
            (some-injective _ _ e) (Zip-Spares-refl rows, h)
      each-Spares (suc fuel) (job ∷ jobs) rows after h e =
          let (mid, first, rest) =
            and_then-some (cancel_queue fuel now (waiting_children job rows) rows)
              (cancel_each fuel now jobs) after e in
          let (s1, h1) =
            queue-Spares fuel (waiting_children job rows) rows mid (children-All job rows h) h
              first in
          let (s2, h2) = each-Spares fuel jobs mid after h1 rest in
          (Zip-Spares-trans rows mid after s1 s2, h2)
