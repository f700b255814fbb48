-- ===== src/Examples/Cancel.antt =====
-- The cascade of a cancellation.
use odoo_job_worker.Base.{ℕ, ◌≡◌, ◌⊎◌, refl, false, some, List, [], ◌∷◌, All, Zip, map, none, ◌++◌}
use odoo_job_worker.Job.{Job, waiting}
use odoo_job_worker.Graph.Children.{cancel}
use odoo_job_worker.Graph.Cancel.{
  ids_of, waiting_children, cancel_listed, cancel_queue, cancel_dependents, cancel_each,
}
use odoo_job_worker.Graph.Cancel.Settled.{NothingWaits, Cancels, Leaves}
use odoo_job_worker.Queue.Buttons.Cancel.{
  button_cancelled, cancelled_to, refused, write_cancelled, pass_on, cascading,
}
use odoo_job_worker.Graph.Cancel.Spares.{Spares}
use odoo_job_worker.Queue.Buttons.Cancel.Selected.{IsCancelledIn, IsMeant}
use odoo_job_worker.Queue.Buttons.Cancel.Cascade.{
  button_cancelled_returns, button_cancelled_strands_none,
}
use odoo_job_worker.Examples.Rows.{settings, row, chain, cancelled_now}

-- A job with a child and a grandchild, and a barrier over the grandchild.
abbrev fan : List Job
fan = chain ++ (row 4 waiting (settings none (some (3 ∷ [])) false none) 1 ∷ [])

abbrev all_cancelled : List Job
all_cancelled = map cancelled_now fan

fan_cancelled : button_cancelled 9 9 (1 ∷ []) fan ≡ cancelled_to all_cancelled
unfolding button_cancelled write_cancelled pass_on cancel_each cancel_dependents cancel_queue
    cancel_listed waiting_children cancel ids_of
fan_cancelled = refl

button_cancelled_returns_example :
    (fuel : ℕ) × ((button_cancelled fuel 9 (1 ∷ []) fan ≡ refused)
      ⊎ ((after : List Job) × (button_cancelled fuel 9 (1 ∷ []) fan ≡ cancelled_to after)))
button_cancelled_returns_example = button_cancelled_returns 9 (1 ∷ []) fan

button_cancelled_strands_none_example :
    All (λ k. NothingWaits k all_cancelled) (cascading (1 ∷ []) fan)
    × Zip
        (λ b a.
          Cancels 9 b a
          × IsCancelledIn 9 (1 ∷ []) b a
          × Spares (IsMeant (1 ∷ []) fan) b a
          × Leaves (1 ∷ []) all_cancelled b a)
        fan
        all_cancelled
button_cancelled_strands_none_example =
    button_cancelled_strands_none 9 9 (1 ∷ []) fan all_cancelled fan_cancelled
