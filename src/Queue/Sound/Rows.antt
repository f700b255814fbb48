-- ===== src/Queue/Sound/Rows.antt =====
-- Rows that are added to a table, and rows that are deleted from it.
use odoo_job_worker.Base.{
  ◌≡◌, ◌<◌, Bool, false, List, [], ◌∷◌, ◌++◌, All, All-map, All-append, All-keep_if, Bool-cases,
  inl, inr, keep_if, or_none, arith,
}
use odoo_job_worker.Job.{Job, HasUniqueIds, with_id}
use odoo_job_worker.Queue.Defs.{clash, HasUniqueKeys}
use odoo_job_worker.Queue.Sound.{IsSound}

pub HasUniqueIds-snoc :
    (rows : List Job) (job : Job)
    → All (λ r. r.id < job.id) rows
    → HasUniqueIds rows
    → HasUniqueIds (rows ++ job ∷ [])
HasUniqueIds-snoc [] job below u = (tt, tt)
HasUniqueIds-snoc (r ∷ rows) job below u = (
  All-append (λ s. with_id r.id s ≡ false) rows (job ∷ []) u.0
      (let later = below.0 in ground arith, tt),
  HasUniqueIds-snoc rows job below.1 u.1,
)

-- Rows that are left when others are deleted.
module _ (p : Job → Bool) where
  HasUniqueIds-keep_if : (rows : List Job) → HasUniqueIds rows → HasUniqueIds (keep_if p rows)
  HasUniqueIds-keep_if [] u = tt
  HasUniqueIds-keep_if (r ∷ rows) u = elim (Bool-cases (p r)) [
    | inl hit ↦ rw hit (
      All-keep_if (λ s. with_id r.id s ≡ false) p rows (All-map (λ s h k. h) rows u.0),
      HasUniqueIds-keep_if rows u.1,
    )
    | inr miss ↦ rw miss (HasUniqueIds-keep_if rows u.1)
  ]

  HasUniqueKeys-keep_if : (rows : List Job) → HasUniqueKeys rows → HasUniqueKeys (keep_if p rows)
  HasUniqueKeys-keep_if [] u = tt
  HasUniqueKeys-keep_if (r ∷ rows) u = elim (Bool-cases (p r)) [
    | inl hit ↦ rw hit (
      All-keep_if (λ s. clash r s ≡ false) p rows (All-map (λ s h k. h) rows u.0),
      HasUniqueKeys-keep_if rows u.1,
    )
    | inr miss ↦ rw miss (HasUniqueKeys-keep_if rows u.1)
  ]

  pub IsSound-keep_if : (rows : List Job) → IsSound rows → IsSound (keep_if p rows)
  IsSound-keep_if rows (u, s, k) = (
    HasUniqueIds-keep_if rows u,
    All-keep_if (λ r. or_none r.identity_key ≡ r.identity_key) p rows (All-map (λ r h e. h) rows s),
    HasUniqueKeys-keep_if rows k,
  )
