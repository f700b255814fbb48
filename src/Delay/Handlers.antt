-- ===== src/Delay/Handlers.antt =====
-- A chain of plain calls as an on_error handler.
use odoo_job_worker.Base.{
  ℕ, zero, suc, ◌≡◌, refl, subst, true, false, Option, some, List, [], ◌∷◌, All, everywhere,
  get_elem?, inl, inr,
}
use mathlib.Core.Option.{some-injective}
use odoo_job_worker.Job.{Job, cancelled, waits_on}
use odoo_job_worker.Graph.Children.{cascade_children_on_parent_success}
use odoo_job_worker.Graph.Children.Success.{
  cascade_success_changes, cascade_success-NoWaitingChild, everything-IsClosed,
}

All-at :
    (P : Job → Type 0) (rows : List Job) (i : ℕ) (r : Job)
    → All P rows
    → get_elem? rows i ≡ some r
    → P r
All-at P [] i r a e = cc
All-at P (x ∷ rows) zero r a e = subst P (some-injective _ _ e) a.0
All-at P (x ∷ rows) (suc i) r a e = All-at P rows i r a.1 e

-- An on_error job that waits on a job is cancelled when that job succeeds.
pub on_error_child_is_cancelled :
    (now job : ℕ) (rows : List Job) (i : ℕ) (before after : Job)
    → get_elem? rows i ≡ some before
    → get_elem? (cascade_children_on_parent_success now job rows) i ≡ some after
    → waits_on job before ≡ true
    → before.run_on_failure ≡ true
    → after.state ≡ cancelled
on_error_child_is_cancelled now job rows i before after at_before at_after waits on_error =
    elim (cascade_success_changes now job (λ _. Unit) rows i before after
      (everywhere _ (λ r w f. tt) rows) (everything-IsClosed now job rows) at_before at_after) [
        | inl same ↦
            let idle : waits_on job after ≡ false =
              All-at (λ r. waits_on job r ≡ false) _ i after
                (cascade_success-NoWaitingChild now job rows) at_after in
            cc
        | inr (inl (w, off, e)) ↦ cc
        | inr (inr (p, d, w, e)) ↦ rw e refl
      ]
