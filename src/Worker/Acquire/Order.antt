-- ===== src/Worker/Acquire/Order.antt =====
-- The selected job among those that qualify.
use mathlib.Core.List.{Memᴰ}
use odoo_job_worker.Base.{
  ℕ, ◌≡◌, refl, subst, not, Bool, true, false, ◌||◌, ◌&&◌, Option, none, some, List, [], ◌∷◌, All,
  All-map, keep_if, All-keep_if, Bool-cases, inl, inr, ltb, ◌==◌, if◌then◌else◌, arith,
}
use odoo_job_worker.Job.{Job}
use odoo_job_worker.Worker.Acquire.{
  Limit, is_eligible, precedes, sooner, sooner_of, pick, claim, reclaim, acquire_job_lock,
}

sooner_trans :
    (a : Option ℕ) (i : ℕ) (b : Option ℕ) (j : ℕ) (c : Option ℕ) (k : ℕ)
    → sooner a i b j ≡ true
    → sooner b j c k ≡ true
    → sooner a i c k ≡ true
sooner_trans none i none j none k p q = ground arith
sooner_trans none i none j (some c) k p q = ground arith
sooner_trans none i (some b) j c k p q = ground arith
sooner_trans (some a) i none j none k p q = ground arith
sooner_trans (some a) i none j (some c) k p q = ground arith
sooner_trans (some a) i (some b) j none k p q = ground arith
sooner_trans (some a) i (some b) j (some c) k p q = ground arith

lexicographic_trans :
    (p q r : ℕ) (b c d : Bool)
    → (b ≡ true → c ≡ true → d ≡ true)
    → ltb p q || (p == q && b) ≡ true
    → ltb q r || (q == r && c) ≡ true
    → ltb p r || (p == r && d) ≡ true
lexicographic_trans p q r b c d t h k = ground arith

precedes_trans : (r s t : Job) → precedes r s ≡ true → precedes s t ≡ true → precedes r t ≡ true
unfolding precedes
precedes_trans r s t h k =
    lexicographic_trans r.priority s.priority t.priority _ _ _
      (sooner_trans r.scheduled_at r.id s.scheduled_at s.id t.scheduled_at t.id) h k

sooner_irrefl : (a : Option ℕ) (i : ℕ) → sooner a i a i ≡ false
sooner_irrefl none i = ground arith
sooner_irrefl (some a) i = ground arith

lexicographic_irrefl : (p : ℕ) (b : Bool) → b ≡ false → ltb p p || (p == p && b) ≡ false
lexicographic_irrefl p b h = ground arith

precedes_irrefl : (r : Job) → precedes r r ≡ false
unfolding precedes
precedes_irrefl r = lexicographic_irrefl r.priority _ (sooner_irrefl r.scheduled_at r.id)

-- What a search for the first row comes to.
abbrev pub IsFirst : (Job → Bool) → List Job → Option Job → Type 0
IsFirst p rows none = All (λ r. p r ≡ false) rows
IsFirst p rows (some j) =
    Memᴰ j rows × (p j ≡ true) × All (λ r. p r ≡ true → precedes r j ≡ false) rows

precedes-false : (x r s : Job) → precedes r s ≡ true → precedes x s ≡ false → precedes x r ≡ false
precedes-false x r s h k = elim (Bool-cases (precedes x r)) [
  | inl before ↦ let after = precedes_trans x r s before h in cc
  | inr not_before ↦ not_before
]

IsFirst-step :
    (p : Job → Bool) (r : Job) (rows : List Job) (o : Option Job)
    → IsFirst p rows o
    → IsFirst p (r ∷ rows) (if p r then sooner_of r o else o)
IsFirst-step p r rows none f = elim (Bool-cases (p r)) [
  | inl hit ↦ rw hit (
    Memᴰ.head refl,
    hit,
    (
      (λ _. precedes_irrefl r),
      All-map {Q = λ x. p x ≡ true → precedes x r ≡ false} (λ x miss e. cc) rows f,
    ),
  )
  | inr miss ↦ rw miss (miss, f)
]
IsFirst-step p r rows (some s) f = elim (Bool-cases (p r)) [
  | inl hit ↦ elim (Bool-cases (precedes r s)) [
    | inl before ↦
        rw (hit, before)
          (
            Memᴰ.head refl,
            hit,
            (
              (λ _. precedes_irrefl r),
              All-map (λ x later e. precedes-false x r s before (later e)) rows f.2,
            ),
          )
    | inr not_before ↦ rw (hit, not_before) (Memᴰ.tail f.0, f.1, ((λ _. not_before), f.2))
  ]
  | inr miss ↦ rw miss (Memᴰ.tail f.0, f.1, ((λ e. cc), f.2))
]

pub pick-IsFirst : (p : Job → Bool) (rows : List Job) → IsFirst p rows (pick p rows)
unfolding pick
pick-IsFirst p [] = tt
pick-IsFirst p (r ∷ rows) = IsFirst-step p r rows (pick p rows) (pick-IsFirst p rows)

-- A row that may be taken: it meets the WHERE clause and no other transaction holds it.
abbrev pub is_open : ℕ → ℕ → List Limit → (ℕ → Bool) → List Job → Job → Bool
is_open now stale limits locked rows r = is_eligible now stale limits rows r && not (locked r.id)

claim_job :
    (now worker : ℕ) (o : Option Job) (rows : List Job) (k : ℕ)
    → (claim now worker o rows).1 ≡ some k
    → (j : Job) × (o ≡ some j) × (j.id ≡ k)
unfolding claim reclaim
claim_job now worker none rows k e = ground arith
claim_job now worker (some j) rows k e = (j, refl, ground arith)

-- A job that is taken stands in the table, meets the WHERE clause and is not held by another
-- transaction, and no other such row comes before it by priority, scheduled time and id.
pub acquire_takes_first :
    (now stale worker : ℕ) (limits : List Limit) (locked : ℕ → Bool) (rows : List Job) (k : ℕ)
    → (acquire_job_lock now stale worker limits locked rows).1 ≡ some k
    → (j : Job) × (j.id ≡ k)
      × Memᴰ j rows
      × (is_open now stale limits locked rows j ≡ true)
      × All (λ r. precedes r j ≡ false) (keep_if (is_open now stale limits locked rows) rows)
unfolding acquire_job_lock
acquire_takes_first now stale worker limits locked rows k e =
    let test = is_open now stale limits locked rows in
    let (j, picked, named) = claim_job now worker (pick test rows) rows k e in
    let first : IsFirst test rows (some j) =
      subst (IsFirst test rows) picked (pick-IsFirst test rows) in
    (j, named, first.0, first.1, All-keep_if (λ r. precedes r j ≡ false) test rows first.2)

IsFirst-none :
    (p : Job → Bool) (rows : List Job) (o : Option Job)
    → All (λ r. p r ≡ false) rows
    → IsFirst p rows o
    → o ≡ none
IsFirst-none p rows none a f = refl
IsFirst-none p rows (some j) a f = absurd (go rows a f.0)
  where
    go : (xs : List Job) → All (λ r. p r ≡ false) xs → Memᴰ j xs → ⊥
    go [] h m = elim m [ ]
    go (x ∷ xs) h (Memᴰ.head e) =
        let hit : p x ≡ true = subst (λ y. p y ≡ true) e f.1 in let miss : p x ≡ false = h.0 in cc
    go (x ∷ xs) h (Memᴰ.tail m) = go xs h.1 m

-- Where no row may be taken the call changes nothing and returns nothing.
pub acquire_idle :
    (now stale worker : ℕ) (limits : List Limit) (locked : ℕ → Bool) (rows : List Job)
    → All (λ r. is_open now stale limits locked rows r ≡ false) rows
    → acquire_job_lock now stale worker limits locked rows ≡ (rows, none)
unfolding acquire_job_lock claim
acquire_idle now stale worker limits locked rows a =
    let test = is_open now stale limits locked rows in
    rw (IsFirst-none test rows (pick test rows) a (pick-IsFirst test rows))
