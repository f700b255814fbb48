-- ===== src/Queue/Buttons/Vacuum.antt =====
-- The loop of the autovacuum beside a single filter.
use odoo_job_worker.Base.{
  ℕ, zero, suc, ◌+◌, ◌-◌, ◌<◌, ◌≡◌, refl, sym, ap, true, not, some, List, [], ◌∷◌, keep_if, length,
  Bool-cases, inl, inr, ltb, ltb→lt, ◌==◌, ◌∙◌, arith,
}
use odoo_job_worker.Job.{Job}
use odoo_job_worker.Queue.Buttons.{is_expired, unlink_chunk, gc_loop}

abbrev pub unexpired : ℕ → List Job → List Job
unexpired cutoff rows = keep_if (λ r. not (is_expired cutoff r)) rows

module _ (cutoff : ℕ) where
  unlink_chunk_step : (room : ℕ) → suc room - 1 ≡ room
  unlink_chunk_step room = omega arith

  room_left : (room : ℕ) → ltb 0 (suc room) ≡ true
  room_left room = ground arith

  unlink_chunk_full : (rows : List Job) → unlink_chunk cutoff 0 rows ≡ (rows, 0)
  unfolding unlink_chunk
  unlink_chunk_full [] = refl
  unlink_chunk_full (r ∷ rows) = elim (Bool-cases (is_expired cutoff r)) [
    | inl old ↦ rw (old, unlink_chunk_full rows)
    | inr young ↦ rw (young, unlink_chunk_full rows)
  ]

  length-unlink_chunk :
      (room : ℕ) (rows : List Job)
      → length (unlink_chunk cutoff room rows).0 + (unlink_chunk cutoff room rows).1 ≡ length rows
  unfolding unlink_chunk
  length-unlink_chunk room [] = omega arith
  length-unlink_chunk room (r ∷ rows) = elim (Bool-cases (is_expired cutoff r)) [
    | inl old ↦ rw old (ground (arith, length-unlink_chunk (room - 1) rows))
    | inr young ↦ rw young (omega (arith, length-unlink_chunk room rows))
  ]

  -- Room left means that nothing expired stays.
  unlink_chunk_partial :
      (room : ℕ) (rows : List Job)
      → (unlink_chunk cutoff room rows).1 < room
      → (unlink_chunk cutoff room rows).0 ≡ unexpired cutoff rows
  unfolding unlink_chunk
  unlink_chunk_partial room [] h = refl
  unlink_chunk_partial zero (r ∷ rows) h = absurd (omega arith)
  unlink_chunk_partial (suc room) (r ∷ rows) h = elim (Bool-cases (is_expired cutoff r)) [
    | inl old ↦ let rest = unlink_chunk_partial (suc room - 1) rows in ground (arith, rest)
    | inr young ↦ rw young (ap (λ t. r ∷ t) (unlink_chunk_partial (suc room) rows (rw young at h)))
  ]

  -- What a chunk takes had expired.
  unexpired-unlink_chunk :
      (room : ℕ) (rows : List Job)
      → unexpired cutoff (unlink_chunk cutoff room rows).0 ≡ unexpired cutoff rows
  unfolding unlink_chunk
  unexpired-unlink_chunk room [] = refl
  unexpired-unlink_chunk zero (r ∷ rows) = rw (unlink_chunk_full (r ∷ rows))
  unexpired-unlink_chunk (suc room) (r ∷ rows) = elim (Bool-cases (is_expired cutoff r)) [
    | inl old ↦ rw (old, unlink_chunk_step room, room_left room) (unexpired-unlink_chunk room rows)
    | inr young ↦ rw (young, young) (ap (λ t. r ∷ t) (unexpired-unlink_chunk (suc room) rows))
  ]

  -- A chunk that takes nothing leaves the rows as they are.
  unlink_chunk_idle :
      (room : ℕ) (rows : List Job)
      → (unlink_chunk cutoff room rows).1 ≡ 0
      → (unlink_chunk cutoff room rows).0 ≡ rows
  unfolding unlink_chunk
  unlink_chunk_idle room [] h = refl
  unlink_chunk_idle zero (r ∷ rows) h = rw (unlink_chunk_full (r ∷ rows))
  unlink_chunk_idle (suc room) (r ∷ rows) h = elim (Bool-cases (is_expired cutoff r)) [
    | inl old ↦ absurd (omega (arith, rw (old, room_left room) at h))
    | inr young ↦ rw young (ap (λ t. r ∷ t) (unlink_chunk_idle (suc room) rows (rw young at h)))
  ]

  unlink_chunk_none :
      (room : ℕ) (rows : List Job)
      → 0 < room
      → (unlink_chunk cutoff room rows).1 ≡ 0
      → unexpired cutoff rows ≡ rows
  unlink_chunk_none room rows pos h =
      sym (unlink_chunk_partial room rows (omega arith)) ∙ unlink_chunk_idle room rows h

  -- The loop of `_gc_old_jobs` ends, after at most one round for each row and one more, and leaves
  -- exactly the rows that have not expired, in their order, whatever the size of a chunk.
  pub gc_loop-eq-unexpired :
      (fuel chunk : ℕ) (rows : List Job)
      → 0 < chunk
      → length rows < fuel
      → gc_loop fuel chunk cutoff rows ≡ some (unexpired cutoff rows)
  unfolding gc_loop
  gc_loop-eq-unexpired zero chunk rows pos h = absurd (omega arith)
  gc_loop-eq-unexpired (suc fuel) chunk rows pos h =
      elim (Bool-cases ((unlink_chunk cutoff chunk rows).1 == 0)) [
        | inl idle ↦ rw idle (ap some (sym (unlink_chunk_none chunk rows pos (ground arith))))
        | inr busy ↦ elim (Bool-cases (ltb (unlink_chunk cutoff chunk rows).1 chunk)) [
          | inl last ↦ rw (busy, last) (ap some (unlink_chunk_partial chunk rows (ltb→lt _ _ last)))
          | inr more ↦
              rw (busy, more)
                (gc_loop-eq-unexpired fuel chunk (unlink_chunk cutoff chunk rows).0 pos
                    (ground (arith, length-unlink_chunk chunk rows))
                  ∙ ap some (unexpired-unlink_chunk chunk rows))
        ]
      ]
