-- ===== src/Graph/Cancel/Settled.antt =====
-- What the cascade of a cancellation leaves waiting.
use odoo_job_worker.Base.{
  ℕ, ◌≡◌, refl, subst, Bool, true, false, ◌&&◌, List, [], ◌∷◌, All, Zip, Zip-map, ◌==◌, is_key,
  member, Bool-cases, inl, inr, ◌⊎◌, arith, ◌∙◌,
}
use odoo_job_worker.Job.{Job, Settings, is_waiting, barred_by, lists_dependency}
use odoo_job_worker.Graph.Walk.Laws.{NoWaitingChild}
use odoo_job_worker.Graph.Children.{cancel}

-- No row that meets a test on its id and its settings waits.
abbrev pub IsQuiet : (ℕ → Settings → Bool) → List Job → Type 0
IsQuiet q rows = All (λ r. is_waiting r.state && q r.id r.settings ≡ false) rows

-- No barrier waits on this job.
abbrev pub NoWaitingBarrier : ℕ → List Job → Type 0
NoWaitingBarrier job rows = All (λ r. barred_by job r ≡ false) rows

-- Nothing waits on this job.
abbrev pub NothingWaits : ℕ → List Job → Type 0
NothingWaits job rows = NoWaitingChild job rows × NoWaitingBarrier job rows

-- A row is as it was, or it was cancelled.
abbrev pub Cancels : ℕ → Job → Job → Type 0
Cancels now before after = (after ≡ before) ⊎ (after ≡ cancel now before)

-- A row that ceased to wait is `owed` what follows from that, or nothing waits on it.
abbrev pub Leaves : List ℕ → List Job → Job → Job → Type 0
Leaves owed final before after =
    is_waiting before.state ≡ true
    → is_waiting after.state ≡ false
    → (member before.id owed ≡ true) ⊎ NothingWaits before.id final

abbrev pub Settles : ℕ → List ℕ → List Job → List Job → Type 0
Settles now owed rows after = Zip (λ b a. Cancels now b a × Leaves owed after b a) rows after

pub cancel-idle :
    (now : ℕ) (q : ℕ → Settings → Bool) (r : Job)
    → is_waiting (cancel now r).state && q (cancel now r).id (cancel now r).settings ≡ false
unfolding cancel
cancel-idle now q r = refl

cancel-twice : (now : ℕ) (r : Job) → cancel now (cancel now r) ≡ cancel now r
unfolding cancel
cancel-twice now r = refl

cancel-id : (now : ℕ) (r : Job) → (cancel now r).id ≡ r.id
unfolding cancel
cancel-id now r = refl

Cancels-trans : (now : ℕ) (b m a : Job) → Cancels now b m → Cancels now m a → Cancels now b a
Cancels-trans now b m a (inl e) (inl f) = inl (f ∙ e)
Cancels-trans now b m a (inl e) (inr f) = inr (rw e at f)
Cancels-trans now b m a (inr e) (inl f) = inr (f ∙ e)
Cancels-trans now b m a (inr e) (inr f) = inr (rw (e, cancel-twice now b) at f)

module _ (now : ℕ) where
  pub IsQuiet-Cancels :
      (q : ℕ → Settings → Bool) (rows after : List Job)
      → Zip (Cancels now) rows after
      → IsQuiet q rows
      → IsQuiet q after
  IsQuiet-Cancels q [] [] z h = tt
  IsQuiet-Cancels q [] (a ∷ after) z h = elim z [ ]
  IsQuiet-Cancels q (b ∷ rows) [] z h = tt
  IsQuiet-Cancels q (b ∷ rows) (a ∷ after) z h = (
    elim z.0 [ inl e ↦ rw e h.0 | inr e ↦ rw e (cancel-idle now q b) ],
    IsQuiet-Cancels q rows after z.1 h.1,
  )

  pub NothingWaits-Cancels :
      (job : ℕ) (rows after : List Job)
      → Zip (Cancels now) rows after
      → NothingWaits job rows
      → NothingWaits job after
  NothingWaits-Cancels job rows after z h = (
    IsQuiet-Cancels (λ i s. is_key s.parent_id job) rows after z h.0,
    IsQuiet-Cancels (λ i s. lists_dependency s.dependency_job_ids job) rows after z h.1,
  )

  pub Settles-Cancels :
      (owed : List ℕ) (rows after : List Job)
      → Settles now owed rows after
      → Zip (Cancels now) rows after
  Settles-Cancels owed rows after = Zip-map (λ b a h. h.0) rows after

  Cancels-id : (b a : Job) → Cancels now b a → a.id ≡ b.id
  Cancels-id b a (inl e) = rw e
  Cancels-id b a (inr e) = rw (e, cancel-id now b)

  -- Two passes, the ids that each owes taken together.
  module _ (owed owed' both : List ℕ) (left : (k : ℕ) → member k owed ≡ true → member k both ≡ true)
      (right : (k : ℕ) → member k owed' ≡ true → member k both ≡ true) where
    Settles-trans_at :
        (b m a : Job) (mid final : List Job)
        → Zip (Cancels now) mid final
        → Cancels now b m × Leaves owed mid b m
        → Cancels now m a × Leaves owed' final m a
        → Cancels now b a × Leaves both final b a
    Settles-trans_at b m a mid final z h k = (
      Cancels-trans now b m a h.0 k.0,
      (λ w n. elim (Bool-cases (is_waiting m.state)) [
        | inl still ↦ elim (k.1 still n) [
          | inl due ↦ inl (right b.id (subst (λ i. member i owed' ≡ true) (Cancels-id b m h.0) due))
          | inr quiet ↦ inr (subst (λ i. NothingWaits i final) (Cancels-id b m h.0) quiet)
        ]
        | inr gone ↦ elim (h.1 w gone) [
          | inl due ↦ inl (left b.id due)
          | inr quiet ↦ inr (NothingWaits-Cancels b.id mid final z quiet)
        ]
      ]),
    )

    -- `mids` and `final` are the whole tables, of which the lists are a part.
    trans_part :
        (rows mid after mids final : List Job)
        → Zip (Cancels now) mids final
        → Zip (λ b m. Cancels now b m × Leaves owed mids b m) rows mid
        → Zip (λ m a. Cancels now m a × Leaves owed' final m a) mid after
        → Zip (λ b a. Cancels now b a × Leaves both final b a) rows after
    trans_part [] [] [] mids final c y z = tt
    trans_part [] [] (a ∷ after) mids final c y z = z
    trans_part [] (m ∷ mid) after mids final c y z = elim y [ ]
    trans_part (b ∷ rows) [] after mids final c y z = elim y [ ]
    trans_part (b ∷ rows) (m ∷ mid) [] mids final c y z = z
    trans_part (b ∷ rows) (m ∷ mid) (a ∷ after) mids final c y z = (
      Settles-trans_at b m a mids final c y.0 z.0,
      trans_part rows mid after mids final c y.1 z.1,
    )

    pub Settles-both :
        (rows mid after : List Job)
        → Settles now owed rows mid
        → Settles now owed' mid after
        → Settles now both rows after
    Settles-both rows mid after y z =
        trans_part rows mid after mid after (Settles-Cancels owed' mid after z) y z

  pub Settles-trans :
      (owed : List ℕ) (rows mid after : List Job)
      → Settles now owed rows mid
      → Settles now [] mid after
      → Settles now owed rows after
  Settles-trans owed = Settles-both owed [] owed (λ k h. h) (λ k h. cc)

  pub Settles-refl : (rows : List Job) → Settles now [] rows rows
  Settles-refl rows = part rows rows
    where
      part : (rows final : List Job) → Zip (λ b a. Cancels now b a × Leaves [] final b a) rows rows
      part [] final = tt
      part (r ∷ rows) final = ((inl refl, (λ w n. cc)), part rows final)

  member-All : (P : ℕ → Type 0) (k : ℕ) (owed : List ℕ) → member k owed ≡ true → All P owed → P k
  member-All P k [] h a = cc
  member-All P k (x ∷ xs) h a = elim (Bool-cases (k == x)) [
    | inl same ↦ subst P (ground arith) a.0
    | inr other ↦ member-All P k xs (rw other at h) a.1
  ]

  pub Settles-paid :
      (owed : List ℕ) (rows after : List Job)
      → All (λ k. NothingWaits k after) owed
      → Settles now owed rows after
      → Settles now [] rows after
  Settles-paid owed rows after paid =
      Zip-map
        (λ b a h. (
          h.0,
          (λ w n. elim (h.1 w n) [
            | inl due ↦ inr (member-All (λ k. NothingWaits k after) b.id owed due paid)
            | inr quiet ↦ inr quiet
          ]),
        ))
        rows after
