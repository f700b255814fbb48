-- ===== src/Graph/Children/Returns.antt =====
-- The loops of both cascades over `parent_id` end.
use odoo_job_worker.Base.{ℕ, suc, ◌≡◌, some, List, [], ◌∷◌}
use odoo_job_worker.Job.{Job, waiting_count}
use odoo_job_worker.Graph.Walk.{sweep, pushed, walk}
use odoo_job_worker.Graph.Children.{
  fail_child, release_child, cancel_child, cascade_children_on_parent_failure,
  cascade_children_on_parent_success, is_on_done, is_on_error, always,
}
use odoo_job_worker.Graph.Children.Failure.{cascade_failure_returns}
use odoo_job_worker.Graph.Children.Success.{cascade_success_returns}

-- The loops of the cascades of a failure and of a success end within one round for each waiting row and
-- one more, and their results are what the cascades give.
pub cascades_return :
    (now job : ℕ) (rows : List Job)
    → (walk (fail_child now) is_on_done (suc (waiting_count rows)) (job ∷ []) rows
        ≡ some (cascade_children_on_parent_failure now job rows))
      × (walk
            (cancel_child now)
            always
            (suc (waiting_count rows))
            (pushed (release_child now) is_on_error job rows)
            (sweep (release_child now) is_on_error job rows)
          ≡ some (cascade_children_on_parent_success now job rows))
cascades_return now job rows =
    (cascade_failure_returns now job rows, cascade_success_returns now job rows)
