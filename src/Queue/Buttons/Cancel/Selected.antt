-- ===== src/Queue/Buttons/Cancel/Selected.antt =====
-- What the writes of `button_cancelled` reach: the selected jobs; and, with the cascade after them, no
-- rows but those and the ones that wait.
use mathlib.Core.Option.{some-injective}
use odoo_job_worker.Base.{
  and_then-some, ℕ, ◌≡◌, subst, sym, true, Option, none, some, List, [], ◌∷◌, Zip, Zip-map, member,
  ◌==◌, if◌then◌else◌, Bool-cases, inl, inr, ◌⊎◌, arith,
}
use odoo_job_worker.Job.{Job, browse, write}
use odoo_job_worker.Graph.Children.{cancel}
use odoo_job_worker.Graph.Cancel.{cancel_each, cancel_dependents}
use odoo_job_worker.Graph.Cancel.Settled.{Cancels, Settles-Cancels}
use odoo_job_worker.Graph.Cancel.Passes.{write-Settles}
use odoo_job_worker.Graph.Cancel.Spares.{
  WaitsIn, Spares, IsWithin, IsWithin-trans, Zip-Spares-trans, Zip-Spares-refl, write-Spares,
  each-Spares, dependents-Spares,
}
use odoo_job_worker.Queue.Defs.{key_is_taken}
use odoo_job_worker.Queue.Buttons.Cancel.{cancel_found, write_cancelled, pass_on}

pub cancel_found-some :
    (now job : ℕ) (found : Option Job) (rows mid : List Job)
    → cancel_found now job found rows ≡ some mid
    → mid ≡ write job (cancel now) rows
unfolding cancel_found
cancel_found-some now job none rows mid e = cc
cancel_found-some now job (some r) rows mid e = elim (Bool-cases (key_is_taken r rows)) [
  | inl taken ↦ let never : none ≡ some mid = rw taken at e in cc
  | inr free ↦ sym (some-injective _ _ (rw free at e))
]

-- A selected row ends as cancelled by this call.
abbrev pub IsCancelledIn : ℕ → List ℕ → Job → Job → Type 0
IsCancelledIn now jobs before after = member before.id jobs ≡ true → after ≡ cancel now before

cancelled_stays : (now : ℕ) (b a : Job) → Cancels now (cancel now b) a → a ≡ cancel now b
unfolding cancel
cancelled_stays now b a (inl e) = e
cancelled_stays now b a (inr e) = e

write-selects :
    (now job : ℕ) (jobs : List ℕ) (b a : Job)
    → Cancels now (if b.id == job then cancel now b else b) a
    → IsCancelledIn now jobs (if b.id == job then cancel now b else b) a
    → Cancels now b a × IsCancelledIn now (job ∷ jobs) b a
unfolding cancel
write-selects now job jobs b a c h = elim (Bool-cases (b.id == job)) [
  | inl own ↦ let same = cancelled_stays now b a (rw own at c) in (inr same, (λ m. same))
  | inr other ↦
      let h' : member b.id jobs ≡ true → a ≡ cancel now b = rw other at h in
      (rw other at c, (λ m. h' (rw other at m)))
]

write-selects_all :
    (now job : ℕ) (jobs : List ℕ) (rows after : List Job)
    → Zip (λ b a. Cancels now b a × IsCancelledIn now jobs b a) (write job (cancel now) rows) after
    → Zip (λ b a. Cancels now b a × IsCancelledIn now (job ∷ jobs) b a) rows after
write-selects_all now job jobs [] [] z = tt
write-selects_all now job jobs [] (a ∷ after) z = z
write-selects_all now job jobs (b ∷ rows) [] z = z
write-selects_all now job jobs (b ∷ rows) (a ∷ after) z =
    (write-selects now job jobs b a z.0.0 z.0.1, write-selects_all now job jobs rows after z.1)

-- The writes, with whatever cancels rows after them.
pub write_cancelled-selects :
    (now : ℕ) (jobs : List ℕ) (rows written after : List Job)
    → write_cancelled now jobs rows ≡ some written
    → Zip (Cancels now) written after
    → Zip (λ b a. Cancels now b a × IsCancelledIn now jobs b a) rows after
unfolding write_cancelled
write_cancelled-selects now [] rows written after e z =
    Zip-map (λ b a c. (c, (λ m. cc))) rows after
      (subst (λ rs. Zip (Cancels now) rs after) (sym (some-injective _ _ e)) z)
write_cancelled-selects now (job ∷ jobs) rows written after e z =
    let (mid, first, rest) =
      and_then-some (cancel_found now job (browse job rows) rows) (write_cancelled now jobs) written
        e in
    let wrote = cancel_found-some now job (browse job rows) rows mid first in
    let later : Zip (λ b a. Cancels now b a × IsCancelledIn now jobs b a)
        (write job (cancel now) rows) after =
      subst (λ rs. Zip (λ b a. Cancels now b a × IsCancelledIn now jobs b a) rs after) wrote
        (write_cancelled-selects now jobs mid written after rest z) in
    write-selects_all now job jobs rows after later

-- The rows that `button_cancelled` is meant for: the selected jobs, and those that wait.
abbrev pub IsMeant : List ℕ → List Job → ℕ → Type 0
IsMeant jobs rows k = (member k jobs ≡ true) ⊎ WaitsIn rows k

pub write_cancelled-Spares :
    (now : ℕ) (meant : ℕ → Type 0) (jobs : List ℕ) (rows written : List Job)
    → ((k : ℕ) → member k jobs ≡ true → meant k)
    → IsWithin meant rows
    → write_cancelled now jobs rows ≡ some written
    → Zip (Spares meant) rows written × IsWithin meant written
unfolding write_cancelled
write_cancelled-Spares now meant [] rows written s h e =
    subst (λ (xs : List Job). Zip (Spares meant) rows xs × IsWithin meant xs) (some-injective _ _ e)
      (Zip-Spares-refl now meant rows, h)
write_cancelled-Spares now meant (job ∷ jobs) rows written s h e =
    let (mid, first, rest) =
      and_then-some (cancel_found now job (browse job rows) rows) (write_cancelled now jobs) written
        e in
    let wrote = sym (cancel_found-some now job (browse job rows) rows mid first) in
    let (spared, within) : Zip (Spares meant) rows mid × IsWithin meant mid =
      subst (λ (xs : List Job). Zip (Spares meant) rows xs × IsWithin meant xs) wrote
        (
          write-Spares now meant job rows (s job (ground arith)),
          IsWithin-trans now meant rows (write job (cancel now) rows) h (
              Settles-Cancels now (job ∷ []) rows (write job (cancel now) rows)
                (write-Settles now job rows)),
        ) in
    let (later, within') =
      write_cancelled-Spares now meant jobs mid written (λ k m. s k (ground arith)) within rest in
    (Zip-Spares-trans now meant rows mid written spared later, within')

pub pass_on-Spares :
    (fuel now : ℕ) (meant : ℕ → Type 0) (jobs : List ℕ) (rows after : List Job)
    → IsWithin meant rows
    → pass_on fuel now jobs rows ≡ some after
    → Zip (Spares meant) rows after
unfolding pass_on
pass_on-Spares fuel now meant jobs rows after h e =
    let (mid, first, rest) =
      and_then-some (cancel_each fuel now jobs rows) (cancel_dependents fuel now jobs) after e in
    let (s1, h1) = each-Spares now meant fuel jobs rows mid h first in
    let (s2, _) = dependents-Spares now meant fuel jobs mid after h1 rest in
    Zip-Spares-trans now meant rows mid after s1 s2
