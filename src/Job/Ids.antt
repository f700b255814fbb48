-- ===== src/Job/Ids.antt =====
-- Unique ids, and writes by id.
use mathlib.Core.List.{Memᴰ}
use odoo_job_worker.Base.{
  ℕ, suc, ◌≤◌, ◌≡◌, refl, sym, subst, Bool, true, false, List, [], ◌∷◌, All, All-map, Bool-cases,
  inl, inr, count_if, update_if, ◌==◌, arith,
}
use odoo_job_worker.Job.Row.{Job}
use odoo_job_worker.Job.Table.{with_id, write}

abbrev pub HasUniqueIds : List Job → Type 0
HasUniqueIds [] = Unit
HasUniqueIds (r ∷ rows) = All (λ s. with_id r.id s ≡ false) rows × HasUniqueIds rows

different : (a b : ℕ) → (a == b) ≡ false → (b == a) ≡ false
different a b h = ground arith

pub All-Memᴰ : (P : Job → Type 0) (j : Job) (rows : List Job) → All P rows → Memᴰ j rows → P j
All-Memᴰ P j [] h m = elim m [ ]
All-Memᴰ P j (x ∷ rows) h (Memᴰ.head e) = subst P (sym e) h.0
All-Memᴰ P j (x ∷ rows) h (Memᴰ.tail m) = All-Memᴰ P j rows h.1 m

pub only_one :
    (j : Job) (rows : List Job)
    → HasUniqueIds rows
    → Memᴰ j rows
    → All (λ r. with_id j.id r ≡ true → r ≡ j) rows
only_one j [] u m = tt
only_one j (x ∷ rows) u (Memᴰ.head e) = (
  (λ _. sym e),
  All-map {Q = λ r. with_id j.id r ≡ true → r ≡ j}
      (λ r other same.
        let other' : with_id j.id r ≡ false = subst (λ y. with_id y.id r ≡ false) (sym e) other in
        cc)
      rows u.0,
)
only_one j (x ∷ rows) u (Memᴰ.tail m) = (
  (λ same. let other = different j.id x.id (All-Memᴰ _ j rows u.0 m) in cc),
  only_one j rows u.1 m,
)

pub write_absent :
    (k : ℕ) (f : Job → Job) (rows : List Job)
    → All (λ s. with_id k s ≡ false) rows
    → write k f rows ≡ rows
write_absent k f [] a = refl
write_absent k f (r ∷ rows) a = rw (a.0, write_absent k f rows a.1)

-- One written row adds one at most.
pub count_if-write :
    (p : Job → Bool) (k : ℕ) (f : Job → Job) (rows : List Job)
    → HasUniqueIds rows
    → count_if p (write k f rows) ≤ suc (count_if p rows)
count_if-write p k f [] u = omega arith
count_if-write p k f (r ∷ rows) u = elim (Bool-cases (with_id k r)) [
  | inl hit ↦
      let absent : All (λ s. with_id k s ≡ false) rows =
        subst (λ i. All (λ s. with_id i s ≡ false) rows) (id_of k r hit) u.0 in
      rw (hit, write_absent k f rows absent) (ground arith)
  | inr miss ↦ rw miss (ground (arith, count_if-write p k f rows u.1))
]
  where
    id_of : (k : ℕ) (r : Job) → with_id k r ≡ true → r.id ≡ k
    id_of k r h = ground arith

-- An update that makes no row meet a test raises no count.
pub count_if-update_if :
    (p q : Job → Bool) (f : Job → Job) (rows : List Job)
    → All (λ r. q r ≡ true → p (f r) ≡ true → p r ≡ true) rows
    → count_if p (update_if q f rows) ≤ count_if p rows
count_if-update_if p q f [] h = omega arith
count_if-update_if p q f (r ∷ rows) h = elim (Bool-cases (q r)) [
  | inl hit ↦ rw hit (ground (arith, h.0 hit, count_if-update_if p q f rows h.1))
  | inr miss ↦ rw miss (ground (arith, count_if-update_if p q f rows h.1))
]

-- An update that keeps ids keeps them unique.
module _ (q : Job → Bool) (f : Job → Job) (keeps : (r : Job) → (f r).id ≡ r.id) where
  with_id-update_if :
      (k : ℕ) (rows : List Job)
      → All (λ s. with_id k s ≡ false) rows
      → All (λ s. with_id k s ≡ false) (update_if q f rows)
  with_id-update_if k [] a = tt
  with_id-update_if k (r ∷ rows) a = elim (Bool-cases (q r)) [
    | inl hit ↦ rw (hit, keeps r) (a.0, with_id-update_if k rows a.1)
    | inr miss ↦ rw miss (a.0, with_id-update_if k rows a.1)
  ]

  pub HasUniqueIds-update_if :
      (rows : List Job) → HasUniqueIds rows → HasUniqueIds (update_if q f rows)
  HasUniqueIds-update_if [] u = tt
  HasUniqueIds-update_if (r ∷ rows) u = elim (Bool-cases (q r)) [
    | inl hit ↦ rw (hit, keeps r) (with_id-update_if r.id rows u.0, HasUniqueIds-update_if rows u.1)
    | inr miss ↦ rw miss (with_id-update_if r.id rows u.0, HasUniqueIds-update_if rows u.1)
  ]

same_id : (k : ℕ) → k == k ≡ true
same_id k = ground arith

count_if-write_first :
    (p : Job → Bool) (f : Job → Job) (x : Job) (rows : List Job)
    → All (λ s. with_id x.id s ≡ false) rows
    → p x ≡ false
    → p (f x) ≡ true
    → count_if p (write x.id f (x ∷ rows)) ≡ suc (count_if p (x ∷ rows))
count_if-write_first p f x rows absent before after =
    rw (same_id x.id, write_absent x.id f rows absent, before, after) refl

-- A written row that meets a test only now adds one exactly.
pub count_if-write_new :
    (p : Job → Bool) (f : Job → Job) (j : Job) (rows : List Job)
    → HasUniqueIds rows
    → Memᴰ j rows
    → p j ≡ false
    → p (f j) ≡ true
    → count_if p (write j.id f rows) ≡ suc (count_if p rows)
count_if-write_new p f j [] u m before after = elim m [ ]
count_if-write_new p f j (x ∷ rows) u (Memᴰ.head e) before after =
    subst
      (λ (y : Job).
        p y ≡ false
        → p (f y) ≡ true
        → count_if p (write y.id f (x ∷ rows)) ≡ suc (count_if p (x ∷ rows)))
      (sym e) (count_if-write_first p f x rows u.0) before after
count_if-write_new p f j (x ∷ rows) u (Memᴰ.tail m) before after =
    let other : with_id j.id x ≡ false = different j.id x.id (All-Memᴰ _ j rows u.0 m) in
    let rest = count_if-write_new p f j rows u.1 m before after in
    rw (other, rest) (elim (Bool-cases (p x)) [ inl hit ↦ rw hit refl | inr miss ↦ rw miss refl ])
