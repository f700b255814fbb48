-- ===== src/Monitor/Metrics/Conserved.antt =====
-- What a roll-up keeps of the counts.
use odoo_job_worker.Base.{
  ℕ, ◌+◌, ◌-◌, ◌*◌, ◌≡◌, refl, Bool, true, false, not, ◌&&◌, List, [], ◌∷◌, ◌++◌, map, String, ◌==◌,
  ltb, keep_if, arith,
}
use odoo_job_worker.Monitor.Floats.{Floats}
use odoo_job_worker.Monitor.Groups.{
  distinct, total, total_of, total_by, total_by-distinct, total-append, keep_if-append,
  keep_if-wider,
}
use odoo_job_worker.Monitor.Metrics.{
  Period, five_minutes, one_hour, one_day, same_period, Metric, is_in_window, roll_up_channel,
  roll_up_rows, clean_up, start_of, roll_up, rollup_hourly, rollup_daily,
}

-- The rows of a period with a stamp, and two counts of theirs.
abbrev pub is_stamped : {D : Type 0} → Period → ℕ → Metric D → Bool
is_stamped period stamp r = same_period r.period period && r.snapshot_at == stamp

stamp_itself : (p : Period) (k : ℕ) → same_period p p && k == k ≡ true
stamp_itself five_minutes k = ground arith
stamp_itself one_hour k = ground arith
stamp_itself one_day k = ground arith

same_period-eq : (p q : Period) → same_period p q ≡ true → p ≡ q
same_period-eq p q h = ground arith

outside :
    (p source target : Period) (a b : Bool)
    → same_period target source ≡ false
    → same_period p target && a ≡ true
    → not (same_period p source && b) ≡ true
outside p source target a b other e =
    let same : p ≡ target = same_period-eq p target (both_left (same_period p target) a e) in
    let apart : same_period p source ≡ false = rw same other in rw apart refl
  where
    both_left : (a b : Bool) → a && b ≡ true → a ≡ true
    both_left a b e = ground arith

module _ {D : Type 0} (floats : Floats D) where
  keep_stamped :
      (period : Period) (stamp : ℕ) (rows : List (Metric D)) (ks : List String)
      → keep_if (is_stamped period stamp) (map (roll_up_channel floats period stamp rows) ks)
        ≡ map (roll_up_channel floats period stamp rows) ks
  unfolding roll_up_channel
  keep_stamped period stamp rows [] = refl
  keep_stamped period stamp rows (k ∷ ks) =
      rw (stamp_itself period stamp, keep_stamped period stamp rows ks) refl

  module _ (f : Metric D → ℕ)
      (summed : (period : Period) (stamp : ℕ) (rows : List (Metric D)) (k : String)
        → f (roll_up_channel floats period stamp rows k) ≡ total_of (λ r. r.channel) f k rows) where
    channels_total :
        (period : Period) (stamp : ℕ) (rows : List (Metric D)) (ks : List String)
        → total f (map (roll_up_channel floats period stamp rows) ks)
          ≡ total_by (λ r. r.channel) f ks rows
    channels_total period stamp rows [] = refl
    channels_total period stamp rows (k ∷ ks) =
        rw (summed period stamp rows k, channels_total period stamp rows ks) refl

    rolled_total :
        (period : Period) (stamp : ℕ) (rows : List (Metric D))
        → total f (keep_if (is_stamped period stamp) (roll_up_rows floats period stamp rows))
          ≡ total f rows
    unfolding roll_up_rows
    rolled_total period stamp rows =
        let keys = distinct (map (λ r. r.channel) rows) in
        rw (keep_stamped period stamp rows keys, channels_total period stamp rows keys)
          (total_by-distinct (λ r. r.channel) f rows)

    cleaned :
        (source target : Period) (now seconds stamp : ℕ) (rows : List (Metric D))
        → same_period target source ≡ false
        → keep_if (is_stamped target stamp) (clean_up now seconds source rows)
          ≡ keep_if (is_stamped target stamp) rows
    unfolding clean_up
    cleaned source target now seconds stamp rows other =
        keep_if-wider (is_stamped target stamp)
          (λ r. not (same_period r.period source && ltb (r.snapshot_at + seconds) now)) rows
          (λ r e.
            outside r.period source target (r.snapshot_at == stamp)
              (ltb (r.snapshot_at + seconds) now) other e)

    roll_up-total :
        (source target : Period) (unit retention now : ℕ) (rows : List (Metric D))
        → same_period target source ≡ false
        → let end = start_of unit now in
          total f
            (keep_if (is_stamped target end) (roll_up floats source target unit retention now rows))
          ≡ total f (keep_if (is_stamped target end) rows)
            + total f (keep_if (is_in_window source (end - unit) end) rows)
    unfolding roll_up
    roll_up-total source target unit retention now rows other =
        let end = start_of unit now in
        let picked = keep_if (is_in_window source (end - unit) end) rows in
        let rolled = roll_up_rows floats target end picked in
        rw
          (
            cleaned source target now retention end (rows ++ rolled) other,
            keep_if-append (is_stamped target end) rows rolled,
            total-append f (keep_if (is_stamped target end) rows)
                (keep_if (is_stamped target end) rolled),
            rolled_total target end picked,
          )
          refl

  completed_summed :
      (period : Period) (stamp : ℕ) (rows : List (Metric D)) (k : String)
      → (roll_up_channel floats period stamp rows k).jobs_completed
        ≡ total_of (λ r. r.channel) (λ r. r.jobs_completed) k rows
  unfolding roll_up_channel
  completed_summed period stamp rows k = refl

  failed_summed :
      (period : Period) (stamp : ℕ) (rows : List (Metric D)) (k : String)
      → (roll_up_channel floats period stamp rows k).jobs_failed
        ≡ total_of (λ r. r.channel) (λ r. r.jobs_failed) k rows
  unfolding roll_up_channel
  failed_summed period stamp rows k = refl

-- What a roll-up at `now` into the last unit adds to the rows of that stamp, and what the rows of the
-- source period in the window hold.
abbrev pub Adds :
    {D : Type 0}
    → (Metric D → ℕ)
    → Period
    → Period
    → ℕ
    → ℕ
    → List (Metric D)
    → List (Metric D)
    → Type 0
Adds f source target unit now before after =
    let end = start_of unit now in
    total f (keep_if (is_stamped target end) after)
    ≡ total f (keep_if (is_stamped target end) before)
      + total f (keep_if (is_in_window source (end - unit) end) before)

-- An hourly roll-up adds to the hourly rows of its stamp what the snapshots of the last full hour count,
-- completed and failed jobs alike, over all channels; a daily one adds to the daily rows of its stamp
-- what the hourly rows of the last full day count. The deletion of old rows takes nothing off them.
pub rollups_conserve :
    {D : Type 0} (floats : Floats D) (now : ℕ) (rows : List (Metric D))
    → (Adds
          (λ r. r.jobs_completed)
          five_minutes
          one_hour
          3600
          now
          rows
          (rollup_hourly floats now rows)
        × Adds
            (λ r. r.jobs_failed)
            five_minutes
            one_hour
            3600
            now
            rows
            (rollup_hourly floats now rows))
      × (Adds (λ r. r.jobs_completed) one_hour one_day 86400 now rows (rollup_daily floats now rows)
          × Adds
              (λ r. r.jobs_failed)
              one_hour
              one_day
              86400
              now
              rows
              (rollup_daily floats now rows))
unfolding rollup_hourly rollup_daily
rollups_conserve floats now rows =
    let c = roll_up-total floats (λ r. r.jobs_completed) (completed_summed floats) in
    let x = roll_up-total floats (λ r. r.jobs_failed) (failed_summed floats) in
    (
      (
        c five_minutes one_hour 3600 (7 * 86400) now rows refl,
        x five_minutes one_hour 3600 (7 * 86400) now rows refl,
      ),
      (
        c one_hour one_day 86400 (90 * 86400) now rows refl,
        x one_hour one_day 86400 (90 * 86400) now rows refl,
      ),
    )
