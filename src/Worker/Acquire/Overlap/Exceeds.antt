-- ===== src/Worker/Acquire/Overlap/Exceeds.antt =====
-- Two workers that pass the limit of a channel together.
use mathlib.Core.List.{Memᴰ}
use odoo_job_worker.Base.{
  ℕ, suc, ◌+◌, ◌<◌, ◌≡◌, refl, ap, ◌∙◌, subst, Bool, true, false, not, ◌&&◌, ◌||◌, Option, some,
  List, [], ◌∷◌, String, same_text, ◌==◌, arith,
}
use odoo_job_worker.Job.{
  Job, HasUniqueIds, count_if-write_new, with_id, write, is_started, is_pending,
}
use odoo_job_worker.Worker.Acquire.{
  Limit, running_count, runs_fresh, find_limit, concurrency_limit, is_eligible, pick, start, claim,
}
use odoo_job_worker.Worker.Acquire.Order.{is_open, IsFirst, pick-IsFirst}
use odoo_job_worker.Worker.Acquire.Overlap.{held, overlap, claim-HasUniqueIds}

-- A row that another write does not name stays.
Memᴰ-write :
    (j : ℕ) (f : Job → Job) (k : Job) (rows : List Job)
    → with_id j k ≡ false
    → Memᴰ k rows
    → Memᴰ k (write j f rows)
Memᴰ-write j f k [] miss m = elim m [ ]
Memᴰ-write j f k (x ∷ rows) miss (Memᴰ.head e) =
    let other : with_id j x ≡ false = subst (λ y. with_id j y ≡ false) e miss in
    Memᴰ.head (rw other e)
Memᴰ-write j f k (x ∷ rows) miss (Memᴰ.tail m) = Memᴰ.tail (Memᴰ-write j f k rows miss m)

not_held : (b l : Bool) (j k : ℕ) → b && not (l || j == k) ≡ true → (k == j) ≡ false
not_held b l j k h = ground arith

claim_fresh :
    (now worker : ℕ) (j : Job) (rows : List Job)
    → is_pending j.state ≡ true
    → (claim now worker (some j) rows).0 ≡ write j.id (start now worker) rows
unfolding claim
claim_fresh now worker j rows idle =
    let fresh : is_started j.state ≡ false = ground arith in rw fresh refl

module _ (now stale : ℕ) (channel : Option String) where
  fresh_adds :
      (worker : ℕ) (j : Job) (rows : List Job)
      → 0 < stale
      → HasUniqueIds rows
      → Memᴰ j rows
      → is_pending j.state ≡ true
      → same_text j.channel channel ≡ true
      → running_count now stale channel (claim now worker (some j) rows).0
        ≡ suc (running_count now stale channel rows)
  unfolding claim running_count start
  fresh_adds worker j rows wide u m idle named =
      let fresh : is_started j.state ≡ false = ground arith in
      rw fresh (
        count_if-write_new (λ r. runs_fresh now stale r && same_text r.channel channel)
          (start now worker) j rows u m (ground arith) (ground arith))

  overlap_two :
      (limits : List Limit) (locked : ℕ → Bool) (first second : ℕ) (j k : Job) (rows : List Job)
      → pick (is_open now stale limits locked rows) rows ≡ some j
      → pick (is_open now stale limits (held locked (some j)) rows) rows ≡ some k
      → overlap now stale limits rows locked (first ∷ second ∷ []) rows
        ≡ (claim now second (some k) (claim now first (some j) rows).0).0
  unfolding overlap
  overlap_two limits locked first second j k rows picks_j picks_k =
      ap
        (λ o.
          (claim now second (pick (is_open now stale limits (held locked o) rows) rows)
            (claim now first o rows).0).0)
        picks_j
      ∙ ap (λ o. (claim now second o (claim now first (some j) rows).0).0) picks_k

  -- Let ids be unique and the stale window not be 0. If two workers whose selections overlap both take
  -- a pending job of the channel, then it runs two more fresh jobs than before; so it exceeds a limit
  -- that had room for one.
  pub overlap_exceeds :
      (limits : List Limit) (locked : ℕ → Bool) (first second : ℕ) (j k : Job) (rows : List Job)
      → 0 < stale
      → HasUniqueIds rows
      → pick (is_open now stale limits locked rows) rows ≡ some j
      → pick (is_open now stale limits (held locked (some j)) rows) rows ≡ some k
      → (is_pending j.state ≡ true) × (same_text j.channel channel ≡ true)
      → (is_pending k.state ≡ true) × (same_text k.channel channel ≡ true)
      → let after = overlap now stale limits rows locked (first ∷ second ∷ []) rows in
        (running_count now stale channel after ≡ running_count now stale channel rows + 2)
        × (concurrency_limit (find_limit channel limits)
              ≡ suc (running_count now stale channel rows)
            → concurrency_limit (find_limit channel limits) < running_count now stale channel after)
  overlap_exceeds limits locked first second j k rows wide u picks_j picks_k fresh_j fresh_k =
      let is_j =
        subst (IsFirst (is_open now stale limits locked rows) rows) picks_j (pick-IsFirst _ rows) in
      let is_k =
        subst (IsFirst (is_open now stale limits (held locked (some j)) rows) rows) picks_k
          (pick-IsFirst _ rows) in
      let taken = (claim now first (some j) rows).0 in
      let apart : with_id j.id k ≡ false =
        not_held (is_eligible now stale limits rows k) (locked k.id) j.id k.id is_k.1 in
      let stays : Memᴰ k taken =
        rw (claim_fresh now first j rows fresh_j.0)
          (Memᴰ-write j.id (start now first) k rows apart is_k.0) in
      let one = fresh_adds first j rows wide u is_j.0 fresh_j.0 fresh_j.1 in
      let two =
        fresh_adds second k taken wide (claim-HasUniqueIds now first (some j) rows u) stays
          fresh_k.0 fresh_k.1 in
      rw (overlap_two limits locked first second j k rows picks_j picks_k)
        (omega (arith, one, two), (λ room. omega (arith, one, two, room)))
