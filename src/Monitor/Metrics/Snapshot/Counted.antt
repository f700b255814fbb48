-- ===== src/Monitor/Metrics/Snapshot/Counted.antt =====
-- What a snapshot counts.
use odoo_job_worker.Base.{
  ℕ, suc, ◌+◌, ◌≡◌, ◌∙◌, refl, Bool, true, false, not, ◌&&◌, ◌||◌, Option, none, some, List, [],
  ◌∷◌, ◌++◌, map, String, str_eq, same_text, is_some, or_else, ◌==◌, if◌then◌else◌, count_if,
  keep_if, length, All, All-map, Bool-cases, inl, inr, arith,
}
use odoo_job_worker.Job.{Job, is_done, is_pending, is_waiting}
use odoo_job_worker.Monitor.Floats.{Floats}
use odoo_job_worker.Monitor.Alerts.{is_failed}
use odoo_job_worker.Monitor.Groups.{
  distinct, total, total_of, occurrences, occurrences-distinct, occurs, total_by, total_by-once,
}
use odoo_job_worker.Monitor.Metrics.Snapshot.{
  label, has_ended, is_live, kept_group, channels_of, snapshot_row, collect_5min_snapshot,
}

-- One for each row that meets a test.
abbrev one_if : (Job → Bool) → Job → ℕ
one_if q r = if q r then 1 else 0

no_nulls :
    (p : Job → Bool) (rows : List Job)
    → All (λ r. is_some r.channel ≡ true) rows
    → keep_if (λ r. p r && not (is_some r.channel)) rows ≡ []
no_nulls p [] h = refl
no_nulls p (r ∷ rows) h =
    let out : p r && not (is_some r.channel) ≡ false = ground (arith, h.0) in
    rw out (no_nulls p rows h.1)

kept_named :
    (null_last : Bool) (p : Job → Bool) (rows : List Job) (c : String)
    → All (λ r. is_some r.channel ≡ true) rows
    → kept_group null_last p rows c ≡ keep_if (λ r. p r && same_text r.channel (some c)) rows
unfolding kept_group
kept_named null_last p rows c h =
    let nulls = no_nulls p rows h in
    elim (Bool-cases (str_eq c "root")) [
      | inr other ↦ rw other refl
      | inl root ↦
          rw (root, nulls)
            (either null_last (keep_if (λ r. p r && same_text r.channel (some c)) rows))
    ]
  where
    either :
        (b : Bool) (named : List Job)
        → (if b then named else if length named == 0 then [] else named) ≡ named
    either true named = refl
    either false [] = refl
    either false (r ∷ named) =
        let more : suc (length named) == 0 ≡ false = ground arith in rw more refl

label_same :
    (channel : Option String) (c : String)
    → is_some channel ≡ true
    → same_text channel (some c) ≡ str_eq (or_else channel "root") c
label_same none c h = cc
label_same (some s) c h = refl

-- The rows of a channel, counted or summed.
count_named :
    (p q : Job → Bool) (rows : List Job) (c : String)
    → All (λ r. is_some r.channel ≡ true) rows
    → count_if q (keep_if (λ r. p r && same_text r.channel (some c)) rows)
      ≡ total_of label (one_if q) c (keep_if p rows)
count_named p q [] c h = refl
count_named p q (r ∷ rows) c h =
    let same = label_same r.channel c h.0 in
    elim (Bool-cases (p r)) [
      | inr out ↦ rw out (count_named p q rows c h.1)
      | inl kept ↦ elim (Bool-cases (str_eq (label r) c)) [
        | inr other ↦ rw (kept, same, other) (count_named p q rows c h.1)
        | inl hit ↦
            rw (kept, same, hit, count_named p q rows c h.1)
              (one_more (q r) (total_of label (one_if q) c (keep_if p rows)))
      ]
    ]
  where
    one_more : (b : Bool) (n : ℕ) → (if b then suc n else n) ≡ (if b then 1 else 0) + n
    one_more true n = omega arith
    one_more false n = omega arith

total-one_if :
    (p q : Job → Bool) (rows : List Job)
    → total (one_if q) (keep_if p rows) ≡ count_if (λ r. p r && q r) rows
total-one_if p q [] = refl
total-one_if p q (r ∷ rows) = elim (Bool-cases (p r)) [
  | inr out ↦ rw out (total-one_if p q rows)
  | inl kept ↦ elim (Bool-cases (q r)) [
    | inl hit ↦ rw (kept, hit) (omega (arith, total-one_if p q rows))
    | inr miss ↦ rw (kept, miss) (omega (arith, total-one_if p q rows))
  ]
]

occurrences-append :
    (k : String) (xs ys : List String)
    → occurrences k (xs ++ ys) ≡ occurrences k xs + occurrences k ys
occurrences-append k [] ys = omega arith
occurrences-append k (x ∷ xs) ys = elim (Bool-cases (str_eq k x)) [
  | inl hit ↦ rw hit (omega (arith, occurrences-append k xs ys))
  | inr miss ↦ rw miss (occurrences-append k xs ys)
]

-- Each row of a query has its label once among the channels of both.
once_left :
    (xs ys : List Job)
    → All (λ r. occurrences (label r) (distinct (map label xs ++ map label ys)) ≡ 1) xs
once_left xs ys =
    All-map
      (λ r present. occurrences-distinct (label r) (map label xs ++ map label ys) (λ absent.
        present
          (omega (arith, absent, occurrences-append (label r) (map label xs) (map label ys)))))
      xs (occurs label xs)

once_right :
    (xs ys : List Job)
    → All (λ r. occurrences (label r) (distinct (map label xs ++ map label ys)) ≡ 1) ys
once_right xs ys =
    All-map
      (λ r present. occurrences-distinct (label r) (map label xs ++ map label ys) (λ absent.
        present
          (omega (arith, absent, occurrences-append (label r) (map label xs) (map label ys)))))
      ys (occurs label ys)

-- A count of the groups adds up to the count of the table.
groups_total :
    (null_last : Bool) (p q : Job → Bool) (rows : List Job) (ks : List String)
    → All (λ r. is_some r.channel ≡ true) rows
    → total (λ c. count_if q (kept_group null_last p rows c)) ks
      ≡ total_by label (one_if q) ks (keep_if p rows)
groups_total null_last p q rows [] h = refl
groups_total null_last p q rows (c ∷ ks) h =
    rw
      (
        kept_named null_last p rows c h,
        count_named p q rows c h,
        groups_total null_last p q rows ks h,
      )
      refl

total-map :
    {A B : Type 0} (f : B → ℕ) (g : A → B) (xs : List A)
    → total f (map g xs) ≡ total (λ x. f (g x)) xs
total-map f g [] = refl
total-map f g (x ∷ xs) = rw (total-map f g xs) refl

module _ {D : Type 0} (floats : Floats D) (null_last null_last_live : Bool) (now : ℕ) where
  row_totals :
      (rows : List Job) (ks : List String)
      → (total
            (λ m. m.jobs_completed)
            (map (snapshot_row floats null_last null_last_live now rows) ks)
          ≡ total
              (λ c. count_if (λ r. is_done r.state) (kept_group null_last (has_ended now) rows c))
              ks)
        × (total
              (λ m. m.jobs_failed)
              (map (snapshot_row floats null_last null_last_live now rows) ks)
            ≡ total
                (λ c.
                  count_if (λ r. is_failed r.state) (kept_group null_last (has_ended now) rows c))
                ks)
        × (total
              (λ m. m.queue_depth)
              (map (snapshot_row floats null_last null_last_live now rows) ks)
            ≡ total
                (λ c.
                  count_if
                    (λ r. is_pending r.state || is_waiting r.state)
                    (kept_group null_last_live is_live rows c))
                ks)
  unfolding snapshot_row
  row_totals rows ks = (
    total-map (λ m. m.jobs_completed) (snapshot_row floats null_last null_last_live now rows) ks,
    total-map (λ m. m.jobs_failed) (snapshot_row floats null_last null_last_live now rows) ks,
    total-map (λ m. m.queue_depth) (snapshot_row floats null_last null_last_live now rows) ks,
  )

  counted :
      (b : Bool) (p q : Job → Bool) (rows : List Job) (ks : List String)
      → All (λ r. is_some r.channel ≡ true) rows
      → All (λ r. occurrences (label r) ks ≡ 1) (keep_if p rows)
      → total (λ c. count_if q (kept_group b p rows c)) ks ≡ count_if (λ r. p r && q r) rows
  counted b p q rows ks h once =
      groups_total b p q rows ks h
      ∙ total_by-once label (one_if q) ks (keep_if p rows) once
      ∙ total-one_if p q rows

  -- If every job has a channel, then the rows of a snapshot count, over all channels, each job that was
  -- done and each that failed with an end in the last five minutes, and each that is pending or
  -- waiting, exactly once, in whatever order the database gives the groups.
  pub snapshot_counts :
      (rows : List Job)
      → All (λ r. is_some r.channel ≡ true) rows
      → let taken = collect_5min_snapshot floats null_last null_last_live now rows [] in
        (total (λ m. m.jobs_completed) taken
          ≡ count_if (λ r. has_ended now r && is_done r.state) rows)
        × (total (λ m. m.jobs_failed) taken
            ≡ count_if (λ r. has_ended now r && is_failed r.state) rows)
        × (total (λ m. m.queue_depth) taken
            ≡ count_if (λ r. is_live r && (is_pending r.state || is_waiting r.state)) rows)
  unfolding collect_5min_snapshot
  snapshot_counts rows h =
      let ended = keep_if (has_ended now) rows in
      let live = keep_if is_live rows in
      let ks = channels_of now rows in
      let (done_rows, failed_rows, depth_rows) = row_totals rows ks in
      (
        done_rows
            ∙ counted null_last (has_ended now) (λ r. is_done r.state) rows ks h
                (once_left ended live),
        failed_rows
            ∙ counted null_last (has_ended now) (λ r. is_failed r.state) rows ks h
                (once_left ended live),
        depth_rows
            ∙ counted null_last_live is_live (λ r. is_pending r.state || is_waiting r.state) rows ks
                h (once_right ended live),
      )
