-- ===== src/Delay/Split.antt =====
-- `Delayable.split`: one call on many records as many calls on few.
use odoo_job_worker.Base.{
  ℕ, zero, suc, ◌≤◌, ◌<◌, ◌≡◌, refl, ap, Bool, List, [], ◌∷◌, ◌++◌, map, All, length, if◌then◌else◌,
  ◌==◌, arith,
}
use odoo_job_worker.Delay.{Call, Delayable, group, chain, nil, Delayed, ok, err, no_chunk_size}
use odoo_job_worker.Delay.Plain.{singles}

abbrev pub take : ℕ → List ℕ → List ℕ
take zero xs = []
take (suc n) [] = []
take (suc n) (x ∷ xs) = x ∷ take n xs

abbrev pub drop : ℕ → List ℕ → List ℕ
drop zero xs = xs
drop (suc n) [] = []
drop (suc n) (x ∷ xs) = drop n xs

-- `[ids[i : i + size] for i in range(0, len(ids), size)]`, with one unit of fuel for a chunk.
unfoldable pub chunks : ℕ → ℕ → List ℕ → List (List ℕ)
chunks zero size ids = []
chunks (suc fuel) size [] = []
chunks (suc fuel) size (id ∷ ids) = take size (id ∷ ids) ∷ chunks fuel size (drop size (id ∷ ids))

-- For a delayable whose identity key is a text: each part has the same one. What follows the
-- delayable stays behind: a part has no `on_done` and no `on_error` list.
unfoldable pub split : ℕ → Bool → Call → Delayed Delayable
unfolding chunks
split size as_chain call =
    if size == 0
    then err no_chunk_size
    else (let parts =
          singles
            (map (λ ids. record call { ids = ids }) (chunks (length call.ids) size call.ids)) in
        ok (if as_chain then chain parts nil nil else group parts nil nil))

abbrev pub concat : List (List ℕ) → List ℕ
concat [] = []
concat (xs ∷ rest) = xs ++ concat rest

take-drop : (n : ℕ) (xs : List ℕ) → take n xs ++ drop n xs ≡ xs
take-drop zero xs = refl
take-drop (suc n) [] = refl
take-drop (suc n) (x ∷ xs) = ap (◌∷◌ x) (take-drop n xs)

length-take : (n : ℕ) (xs : List ℕ) → length (take n xs) ≤ n
length-take zero xs = omega arith
length-take (suc n) [] = omega arith
length-take (suc n) (x ∷ xs) = omega (arith, length-take n xs)

length-drop : (n : ℕ) (xs : List ℕ) → length (drop n xs) ≤ length xs
length-drop zero xs = omega arith
length-drop (suc n) [] = omega arith
length-drop (suc n) (x ∷ xs) = omega (arith, length-drop n xs)

-- The parts of a split cover the records in their order, whatever number there is of them: where the
-- size is not 0, no part is empty and none has more records than the size.
pub chunks_cover :
    (size fuel : ℕ) (ids : List ℕ)
    → 0 < size
    → length ids ≤ fuel
    → (concat (chunks fuel size ids) ≡ ids)
      × All (λ part. (0 < length part) × (length part ≤ size)) (chunks fuel size ids)
unfolding chunks
chunks_cover size zero [] pos enough = (refl, tt)
chunks_cover size zero (id ∷ ids) pos enough = absurd (omega (arith, enough))
chunks_cover size (suc fuel) [] pos enough = (refl, tt)
chunks_cover zero (suc fuel) (id ∷ ids) pos enough = absurd (omega (arith, pos))
chunks_cover (suc n) (suc fuel) (id ∷ ids) pos enough =
    let (whole, small) =
      chunks_cover (suc n) fuel (drop n ids) pos (omega (arith, enough, length-drop n ids)) in
    (
      ap (◌∷◌ id) (rw whole (take-drop n ids)),
      ((omega arith, omega (arith, length-take n ids)), small),
    )
