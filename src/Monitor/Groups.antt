-- ===== src/Monitor/Groups.antt =====
-- `GROUP BY`: the distinct keys of a list, and sums by key.
use odoo_job_worker.Base.{
  ℕ, suc, ◌+◌, ◌*◌, ◌≡◌, ◌≢◌, refl, Bool, true, false, not, List, [], ◌∷◌, map, ◌++◌, String,
  str_eq, eq_iff, count_if, keep_if, Bool-cases, inl, inr, All, All-map, arith,
}

-- Each key once, in the order of the first rows; SQL fixes no order.
unfoldable pub distinct : List String → List String
distinct [] = []
distinct (x ∷ xs) = x ∷ keep_if (λ y. not (str_eq x y)) (distinct xs)

module _ {A : Type 0} where
  abbrev pub total : (A → ℕ) → List A → ℕ
  total f [] = 0
  total f (x ∷ xs) = f x + total f xs

  -- The sum over a group.
  abbrev pub total_of : (A → String) → (A → ℕ) → String → List A → ℕ
  total_of key f k xs = total f (keep_if (λ x. str_eq (key x) k) xs)

abbrev pub occurrences : String → List String → ℕ
occurrences k ks = count_if (str_eq k) ks

same_itself : (s : String) → str_eq s s ≡ true
same_itself s = ground (arith, eq_iff s s)

occurrences-keep_same :
    (k x : String) (ks : List String)
    → str_eq k x ≡ true
    → occurrences k (keep_if (λ y. not (str_eq x y)) ks) ≡ 0
occurrences-keep_same k x [] same = refl
occurrences-keep_same k x (y ∷ ks) same = elim (Bool-cases (str_eq x y)) [
  | inl hit ↦ rw hit (occurrences-keep_same k x ks same)
  | inr miss ↦
      let other : str_eq k y ≡ false = ground (arith, eq_iff x y, eq_iff k x, eq_iff k y) in
      rw (miss, other) (occurrences-keep_same k x ks same)
]

occurrences-keep_other :
    (k x : String) (ks : List String)
    → str_eq k x ≡ false
    → occurrences k (keep_if (λ y. not (str_eq x y)) ks) ≡ occurrences k ks
occurrences-keep_other k x [] other = refl
occurrences-keep_other k x (y ∷ ks) other = elim (Bool-cases (str_eq x y)) [
  | inl hit ↦
      let miss : str_eq k y ≡ false = ground (arith, eq_iff x y, eq_iff k x, eq_iff k y) in
      rw (hit, miss) (occurrences-keep_other k x ks other)
  | inr keeps ↦ rw (keeps, occurrences-keep_other k x ks other) refl
]

pub occurrences-distinct :
    (k : String) (xs : List String) → 0 ≢ occurrences k xs → occurrences k (distinct xs) ≡ 1
unfolding distinct
occurrences-distinct k [] some_k = absurd (some_k refl)
occurrences-distinct k (x ∷ xs) some_k = elim (Bool-cases (str_eq k x)) [
  | inl hit ↦ rw (hit, occurrences-keep_same k x (distinct xs) hit) refl
  | inr miss ↦
      rw (miss, occurrences-keep_other k x (distinct xs) miss)
        (occurrences-distinct k xs (λ e. some_k (rw miss e)))
]

module _ {A : Type 0} (key : A → String) (f : A → ℕ) where
  -- The sum over the keys of the sums by key.
  abbrev pub total_by : List String → List A → ℕ
  total_by ks xs = total (λ k. total_of key f k xs) ks

  total_by-none : (ks : List String) → total_by ks [] ≡ 0
  total_by-none [] = refl
  total_by-none (k ∷ ks) = omega (arith, total_by-none ks)

  -- One more row adds its value once for each occurrence of its key.
  total_by-row :
      (x : A) (xs : List A) (ks : List String)
      → total_by ks (x ∷ xs) ≡ total_by ks xs + occurrences (key x) ks * f x
  total_by-row x xs [] = omega arith
  total_by-row x xs (k ∷ ks) = elim (Bool-cases (str_eq (key x) k)) [
    | inl hit ↦ rw hit (omega (arith, total_by-row x xs ks))
    | inr miss ↦ rw miss (omega (arith, total_by-row x xs ks))
  ]

  pub total_by-once :
      (ks : List String) (xs : List A)
      → All (λ x. occurrences (key x) ks ≡ 1) xs
      → total_by ks xs ≡ total f xs
  total_by-once ks [] once = total_by-none ks
  total_by-once ks (x ∷ xs) once =
      rw (total_by-row x xs ks, once.0) (omega (arith, total_by-once ks xs once.1))

-- A key of the list occurs once among the distinct keys.
once_tail :
    {A : Type 0} (key : A → String) (x : A) (xs ys : List A)
    → All (λ y. 0 ≢ occurrences (key y) (map key xs)) ys
    → All (λ y. 0 ≢ occurrences (key y) (map key (x ∷ xs))) ys
once_tail key x xs ys h =
    All-map
      (λ y present absent. elim (Bool-cases (str_eq (key y) (key x))) [
        | inl hit ↦ let never : 0 ≡ suc (occurrences (key y) (map key xs)) = rw hit at absent in cc
        | inr miss ↦ present (rw miss at absent)
      ])
      ys h

pub occurs :
    {A : Type 0} (key : A → String) (xs : List A)
    → All (λ y. 0 ≢ occurrences (key y) (map key xs)) xs
occurs key [] = tt
occurs key (x ∷ xs) = (
  (λ absent.
      let never : 0 ≡ suc (occurrences (key x) (map key xs)) = rw (same_itself (key x)) at absent in
      cc),
  once_tail key x xs xs (occurs key xs),
)

pub once_distinct :
    {A : Type 0} (key : A → String) (xs : List A)
    → All (λ y. occurrences (key y) (distinct (map key xs)) ≡ 1) xs
once_distinct key xs =
    All-map (λ y present. occurrences-distinct (key y) (map key xs) present) xs (occurs key xs)

-- Grouped sums add up to the sum of all.
pub total_by-distinct :
    {A : Type 0} (key : A → String) (f : A → ℕ) (xs : List A)
    → total_by key f (distinct (map key xs)) xs ≡ total f xs
total_by-distinct key f xs = total_by-once key f (distinct (map key xs)) xs (once_distinct key xs)

module _ {A : Type 0} where
  pub total-append : (f : A → ℕ) (xs ys : List A) → total f (xs ++ ys) ≡ total f xs + total f ys
  total-append f [] ys = omega arith
  total-append f (x ∷ xs) ys = omega (arith, total-append f xs ys)

  pub keep_if-append :
      (p : A → Bool) (xs ys : List A) → keep_if p (xs ++ ys) ≡ keep_if p xs ++ keep_if p ys
  keep_if-append p [] ys = refl
  keep_if-append p (x ∷ xs) ys = elim (Bool-cases (p x)) [
    | inl hit ↦ rw (hit, keep_if-append p xs ys) refl
    | inr miss ↦ rw (miss, keep_if-append p xs ys) refl
  ]

  -- A filter that lets pass what another one selects.
  pub keep_if-wider :
      (p q : A → Bool) (xs : List A)
      → ((x : A) → p x ≡ true → q x ≡ true)
      → keep_if p (keep_if q xs) ≡ keep_if p xs
  keep_if-wider p q [] wider = refl
  keep_if-wider p q (x ∷ xs) wider = elim (Bool-cases (p x)) [
    | inl hit ↦ rw (wider x hit, hit, keep_if-wider p q xs wider) refl
    | inr miss ↦ elim (Bool-cases (q x)) [
      | inl pass ↦ rw (pass, miss) (keep_if-wider p q xs wider)
      | inr drop ↦ rw (drop, miss) (keep_if-wider p q xs wider)
    ]
  ]
