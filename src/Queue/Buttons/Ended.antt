-- ===== src/Queue/Buttons/Ended.antt =====
-- Ids, settings and activity of rows under `button_set_to_done` and `button_set_to_failed`.
use mathlib.Core.Option.{some-injective}
use odoo_job_worker.Base.{
  ℕ, ◌≡◌, refl, subst, false, Option, none, some, List, [], ◌∷◌, Zip, Bool-cases, and_then-some,
  inl, inr,
}
use odoo_job_worker.Job.{Job, State, done, failed, is_active, browse, with_id, write}
use odoo_job_worker.Graph.Children.{cascade_children_on_parent_failure}
use odoo_job_worker.Graph.Barrier.{release_dependents, fail_dependents}
use odoo_job_worker.Queue.Defs.{key_is_taken}
use odoo_job_worker.Queue.Sound.{IsQuiet, Zip-IsQuiet-refl, Zip-IsQuiet-trans, update-IsQuiet}
use odoo_job_worker.Queue.Buttons.{
  conclude, conclude_found, write_done, button_set_to_done, write_failed, button_set_to_failed,
}
use odoo_job_worker.Queue.Buttons.Keys.{
  cascade_failure-IsQuiet, release_dependents-IsQuiet, fail_dependents-IsQuiet,
}

conclude-IsQuiet :
    (state : State) (now : ℕ) (r : Job) → is_active state ≡ false → IsQuiet r (conclude state now r)
unfolding conclude
conclude-IsQuiet state now r idle = record { named = refl; same = refl; calms = λ h. cc }

write-conclude-IsQuiet :
    (state : State) (now job : ℕ) (rows : List Job)
    → is_active state ≡ false
    → Zip IsQuiet rows (write job (conclude state now) rows)
write-conclude-IsQuiet state now job rows idle =
    update-IsQuiet (with_id job) _ (λ r h. conclude-IsQuiet state now r idle) rows

conclude_found-IsQuiet :
    (state : State) (now job : ℕ) (found : Option Job) (rows after : List Job)
    → is_active state ≡ false
    → conclude_found state now job found rows ≡ some after
    → Zip IsQuiet rows after
unfolding conclude_found
conclude_found-IsQuiet state now job none rows after idle e = cc
conclude_found-IsQuiet state now job (some r) rows after idle e =
    elim (Bool-cases (key_is_taken r rows)) [
      | inl taken ↦ let never : none ≡ some after = rw taken at e in cc
      | inr free ↦
          subst (Zip IsQuiet rows) (some-injective _ _ (rw free at e))
            (write-conclude-IsQuiet state now job rows idle)
    ]

write_done-IsQuiet :
    (now : ℕ) (jobs : List ℕ) (rows after : List Job)
    → write_done now jobs rows ≡ some after
    → Zip IsQuiet rows after
unfolding write_done
write_done-IsQuiet now [] rows after e =
    subst (Zip IsQuiet rows) (some-injective _ _ e) (Zip-IsQuiet-refl rows)
write_done-IsQuiet now (job ∷ jobs) rows after e =
    let (mid, went, rest) = and_then-some _ (write_done now jobs) after e in
    Zip-IsQuiet-trans rows mid after
      (conclude_found-IsQuiet done now job (browse job rows) rows mid refl went)
      (write_done-IsQuiet now jobs mid after rest)

pub button_set_to_done-IsQuiet :
    (now : ℕ) (jobs : List ℕ) (rows after : List Job)
    → button_set_to_done now jobs rows ≡ some after
    → Zip IsQuiet rows after
unfolding button_set_to_done
button_set_to_done-IsQuiet now jobs rows after e =
    let (mid, went, rest) =
      and_then-some (write_done now jobs rows) (λ mid. some (release_dependents now jobs mid)) after
        e in
    Zip-IsQuiet-trans rows mid after (write_done-IsQuiet now jobs rows mid went)
      (subst (Zip IsQuiet mid) (some-injective _ _ rest) (release_dependents-IsQuiet now jobs mid))

write_failed-IsQuiet :
    (now : ℕ) (jobs : List ℕ) (rows after : List Job)
    → write_failed now jobs rows ≡ some after
    → Zip IsQuiet rows after
unfolding write_failed
write_failed-IsQuiet now [] rows after e =
    subst (Zip IsQuiet rows) (some-injective _ _ e) (Zip-IsQuiet-refl rows)
write_failed-IsQuiet now (job ∷ jobs) rows after e =
    let (mid, went, rest) =
      and_then-some _
        (λ mid. write_failed now jobs (cascade_children_on_parent_failure now job mid)) after e in
    Zip-IsQuiet-trans rows mid after
      (conclude_found-IsQuiet failed now job (browse job rows) rows mid refl went)
      (Zip-IsQuiet-trans mid _ after (cascade_failure-IsQuiet now job mid)
        (write_failed-IsQuiet now jobs _ after rest))

pub button_set_to_failed-IsQuiet :
    (now : ℕ) (jobs : List ℕ) (rows after : List Job)
    → button_set_to_failed now jobs rows ≡ some after
    → Zip IsQuiet rows after
unfolding button_set_to_failed
button_set_to_failed-IsQuiet now jobs rows after e =
    let (mid, went, rest) =
      and_then-some (write_failed now jobs rows) (λ mid. some (fail_dependents now jobs mid)) after
        e in
    Zip-IsQuiet-trans rows mid after (write_failed-IsQuiet now jobs rows mid went)
      (subst (Zip IsQuiet mid) (some-injective _ _ rest) (fail_dependents-IsQuiet now jobs mid))
