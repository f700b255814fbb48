-- ===== src/Base/Lists.antt =====
-- Lists measured by native numbers, Boolean selections, and relations between two lists.
use mathlib.Core.Option.{some-injective}
use Prim.Native.Nat.{ℕ, zero, suc, ◌+◌}
use mathlib.Core.Path.{◌≡◌, refl, ap, subst}
use mathlib.Core.Bool.{Bool, true, false, ◌||◌}
use mathlib.Core.Option.{Option, none, some}
use mathlib.Core.List.{List, [], ◌∷◌, ◌++◌, map}
use native.Mathlib.Omega.{arith}
use mathlib.Core.Logic.{inl, inr}
use odoo_job_worker.Base.Tests.{Bool-cases, ◌==◌, if◌then◌else◌}

module _ {ℓ} {A : Type ℓ} where
  abbrev pub length : List A → ℕ
  length [] = 0
  length (x ∷ xs) = suc (length xs)

  pub length-append : (xs ys : List A) → length (xs ++ ys) ≡ length xs + length ys
  length-append [] ys = omega arith
  length-append (x ∷ xs) ys = omega (arith, length-append xs ys)

  abbrev pub All {κ} : (A → Type κ) → List A → Type κ
  All P [] = Unit
  All P (x ∷ xs) = P x × All P xs

  pub All-append {κ} : (P : A → Type κ) (xs ys : List A) → All P xs → All P ys → All P (xs ++ ys)
  All-append P [] ys hx hy = hy
  All-append P (x ∷ xs) ys hx hy = (hx.0, All-append P xs ys hx.1 hy)

  pub All-split {κ} : (P : A → Type κ) (xs ys : List A) → All P (xs ++ ys) → All P xs × All P ys
  All-split P [] ys h = (tt, h)
  All-split P (x ∷ xs) ys h = let (hx, hy) = All-split P xs ys h.1 in ((h.0, hx), hy)

  pub All-map {κ μ} :
      {P : A → Type κ} {Q : A → Type μ} (f : (x : A) → P x → Q x) (xs : List A)
      → All P xs
      → All Q xs
  All-map f [] h = tt
  All-map f (x ∷ xs) h = (f x h.0, All-map f xs h.1)

  pub everywhere : (P : A → Type 0) (f : (x : A) → P x) (xs : List A) → All P xs
  everywhere P f [] = tt
  everywhere P f (x ∷ xs) = (f x, everywhere P f xs)

  abbrev pub count_if : (A → Bool) → List A → ℕ
  count_if p [] = 0
  count_if p (x ∷ xs) = let rest = count_if p xs in if p x then suc rest else rest

  abbrev pub keep_if : (A → Bool) → List A → List A
  keep_if p [] = []
  keep_if p (x ∷ xs) = let rest = keep_if p xs in if p x then x ∷ rest else rest

  pub All-keep_if {κ} :
      (Q : A → Type κ) (p : A → Bool) (xs : List A)
      → All (λ x. p x ≡ true → Q x) xs
      → All Q (keep_if p xs)
  All-keep_if Q p [] h = tt
  All-keep_if Q p (x ∷ xs) h = elim (Bool-cases (p x)) [
    | inl hit ↦ rw hit (h.0 hit, All-keep_if Q p xs h.1)
    | inr miss ↦ rw miss (All-keep_if Q p xs h.1)
  ]

  -- `UPDATE … SET f WHERE p`: every row that meets the test is replaced.
  abbrev pub update_if : (A → Bool) → (A → A) → List A → List A
  update_if p f [] = []
  update_if p f (x ∷ xs) = (if p x then f x else x) ∷ update_if p f xs

  abbrev pub find_if : (A → Bool) → List A → Option A
  find_if p [] = none
  find_if p (x ∷ xs) = let rest = find_if p xs in if p x then some x else rest

  pub length-update_if :
      (p : A → Bool) (f : A → A) (xs : List A) → length (update_if p f xs) ≡ length xs
  length-update_if p f [] = refl
  length-update_if p f (x ∷ xs) = omega (arith, length-update_if p f xs)

  -- Two lists of one length whose elements are related place by place.
  abbrev pub Zip : (A → A → Type 0) → List A → List A → Type 0
  Zip R [] [] = Unit
  Zip R (x ∷ xs) (y ∷ ys) = R x y × Zip R xs ys
  Zip R _ _ = ⊥

  pub Zip-map :
      {R S : A → A → Type 0} (f : (x y : A) → R x y → S x y) (xs ys : List A)
      → Zip R xs ys
      → Zip S xs ys
  Zip-map f [] [] r = tt
  Zip-map f [] (y ∷ ys) r = r
  Zip-map f (x ∷ xs) [] r = r
  Zip-map f (x ∷ xs) (y ∷ ys) r = (f x y r.0, Zip-map f xs ys r.1)

  pub map-Zip :
      (R : A → A → Type 0) (f : A → A) (h : (x : A) → R x (f x)) (xs : List A) → Zip R xs (map f xs)
  map-Zip R f h [] = tt
  map-Zip R f h (x ∷ xs) = (h x, map-Zip R f h xs)

  abbrev pub get_elem? : List A → ℕ → Option A
  get_elem? [] i = none
  get_elem? (x ∷ xs) zero = some x
  get_elem? (x ∷ xs) (suc i) = get_elem? xs i

  pub get_elem?-update_if :
      (p : A → Bool) (f : A → A) (xs : List A) (i : ℕ) (x : A)
      → get_elem? xs i ≡ some x
      → get_elem? (update_if p f xs) i ≡ some (if p x then f x else x)
  get_elem?-update_if p f [] i x e = cc
  get_elem?-update_if p f (y ∷ xs) zero x e =
      ap (λ u. some (if p u then f u else u)) (some-injective _ _ e)
  get_elem?-update_if p f (y ∷ xs) (suc i) x e = get_elem?-update_if p f xs i x e

  pub get_elem?-update_if_miss :
      (p : A → Bool) (f : A → A) (xs : List A) (i : ℕ) (x : A)
      → get_elem? xs i ≡ some x
      → p x ≡ false
      → get_elem? (update_if p f xs) i ≡ some x
  get_elem?-update_if_miss p f xs i x e miss = rw (get_elem?-update_if p f xs i x e, miss)

  pub Zip-at :
      (R : A → A → Type 0) (xs ys : List A) (i : ℕ) (x y : A)
      → Zip R xs ys
      → get_elem? xs i ≡ some x
      → get_elem? ys i ≡ some y
      → R x y
  Zip-at R [] ys i x y z e f = cc
  Zip-at R (a ∷ xs) [] i x y z e f = cc
  Zip-at R (a ∷ xs) (b ∷ ys) zero x y z e f =
      subst (λ u. R u y) (some-injective _ _ e) (subst (R a) (some-injective _ _ f) z.0)
  Zip-at R (a ∷ xs) (b ∷ ys) (suc i) x y z e f = Zip-at R xs ys i x y z.1 e f

  pub Zip-both :
      {R S T : A → A → Type 0} (f : (x y : A) → R x y → S x y → T x y) (xs ys : List A)
      → Zip R xs ys
      → Zip S xs ys
      → Zip T xs ys
  Zip-both f [] [] r s = tt
  Zip-both f [] (y ∷ ys) r s = r
  Zip-both f (x ∷ xs) [] r s = r
  Zip-both f (x ∷ xs) (y ∷ ys) r s = (f x y r.0 s.0, Zip-both f xs ys r.1 s.1)

abbrev pub or_else {ℓ} : {A : Type ℓ} → Option A → A → A
or_else none d = d
or_else (some a) d = a

abbrev pub member : ℕ → List ℕ → Bool
member k [] = false
member k (x ∷ xs) = k == x || member k xs

-- A step that is taken if the one before gave something.
module _ {ℓ κ} {A : Type ℓ} {B : Type κ} where
  abbrev pub and_then : Option A → (A → Option B) → Option B
  and_then o f = elim o [ none ↦ none | some x ↦ f x ]

  -- The parts of a chain that gives something.
  pub and_then-some :
      (o : Option A) (f : A → Option B) (after : B)
      → and_then o f ≡ some after
      → (mid : A) × (o ≡ some mid) × (f mid ≡ some after)
  and_then-some none f after e = cc
  and_then-some (some mid) f after e = (mid, refl, e)

  pub some-and_then :
      (o : Option A) (f : A → Option B) (mid : A) (after : B)
      → o ≡ some mid
      → f mid ≡ some after
      → and_then o f ≡ some after
  some-and_then o f mid after e h = rw e h
