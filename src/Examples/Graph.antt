-- ===== src/Examples/Graph.antt =====
-- Cascades on a chain, on an on_error handler and on a group barrier.
use odoo_job_worker.Base.{◌-◌, ◌≡◌, refl, some, [], ◌∷◌, arith, suc}
use odoo_job_worker.Job.{waiting, pending, waiting_count}
use odoo_job_worker.Graph.Walk.{sweep, pushed, walk}
use odoo_job_worker.Graph.Walk.Laws.{NoWaitingChild}
use odoo_job_worker.Graph.Children.{
  fail_child, release_child, cancel_child, promote, cancel, is_on_done, always, is_on_error,
  cascade_children_on_parent_failure, cascade_children_on_parent_success,
}
use odoo_job_worker.Graph.Children.Failure.{
  FailsUnder, everything-IsClosed, cascade_failure_changes, cascade_failure_strands_none,
}
use odoo_job_worker.Graph.Children.Returns.{cascades_return}
use odoo_job_worker.Graph.Children.Success.{
  SucceedsUnder, cascade_success_changes, cascade_success_strands_none,
}
use odoo_job_worker.Graph.Barrier.{release_row, release_dependents_of}
use odoo_job_worker.Graph.Barrier.Outcome.{
  succeeded, deliver, deliver_all, barrier_verdict, barrier_counts_down,
}
use odoo_job_worker.Examples.Rows.{
  child, chain, rescue, barrier, group, turned, failed_under, cancelled_now,
}

barrier_verdict_example :
    (record (turned pending barrier) { pending_dependency_count = 0 }).state ≡ pending
unfolding deliver deliver_all release_dependents_of release_row
barrier_verdict_example =
    barrier_verdict 9 (succeeded 2 ∷ succeeded 1 ∷ []) group 2 barrier
      (record (turned pending barrier) { pending_dependency_count = 0 }) refl refl refl
      (refl, (refl, tt)) refl (omega arith)

barrier_counts_down_example :
    ((record (turned waiting barrier) { pending_dependency_count = 1 }).state ≡ waiting)
    × ((record (turned waiting barrier) { pending_dependency_count = 1 }).pending_dependency_count
        ≡ barrier.pending_dependency_count - 1)
unfolding deliver deliver_all release_dependents_of release_row
barrier_counts_down_example =
    barrier_counts_down 9 (succeeded 2 ∷ []) group 2 barrier
      (record (turned waiting barrier) { pending_dependency_count = 1 }) refl refl refl (refl, tt)
      refl (omega arith)

cascade_failure_changes_example : FailsUnder 9 (λ _. Unit) (child 2) (failed_under 2 (child 2))
unfolding cascade_children_on_parent_failure walk sweep pushed fail_child promote
cascade_failure_changes_example =
    cascade_failure_changes 9 1 chain (λ _. Unit) 2 (child 2) (failed_under 2 (child 2)) tt
      (everything-IsClosed 9 chain) refl refl

cascade_failure_strands_none_example :
    NoWaitingChild 1 (cascade_children_on_parent_failure 9 1 chain)
    × NoWaitingChild 2 (cascade_children_on_parent_failure 9 1 chain)
unfolding cascade_children_on_parent_failure walk sweep pushed fail_child promote
cascade_failure_strands_none_example =
    cascade_failure_strands_none 9 1 chain 1 (child 1) (failed_under 1 (child 1)) refl refl refl
      refl

cascades_return_example :
    (walk (fail_child 9) is_on_done (suc (waiting_count rescue)) (1 ∷ []) rescue
      ≡ some (cascade_children_on_parent_failure 9 1 rescue))
    × (walk
          (cancel_child 9)
          always
          (suc (waiting_count rescue))
          (pushed (release_child 9) is_on_error 1 rescue)
          (sweep (release_child 9) is_on_error 1 rescue)
        ≡ some (cascade_children_on_parent_success 9 1 rescue))
cascades_return_example = cascades_return 9 1 rescue

cascade_success_changes_example : SucceedsUnder 9 1 (λ _. Unit) (child 2) (cancelled_now (child 2))
unfolding cascade_children_on_parent_success walk sweep pushed release_child cancel_child promote
    cancel
cascade_success_changes_example =
    cascade_success_changes 9 1 (λ _. Unit) rescue 2 (child 2) (cancelled_now (child 2))
      ((λ w e. tt), ((λ w e. tt), ((λ w e. tt), tt)))
      ((λ p w q d. tt), ((λ p w q d. tt), ((λ p w q d. tt), tt))) refl refl

cascade_success_strands_none_example :
    NoWaitingChild 1 (cascade_children_on_parent_success 9 1 rescue)
    × NoWaitingChild 3 (cascade_children_on_parent_success 9 1 rescue)
unfolding cascade_children_on_parent_success walk sweep pushed release_child cancel_child promote
    cancel
cascade_success_strands_none_example =
    cascade_success_strands_none 9 1 rescue 2 (child 2) (cancelled_now (child 2)) refl refl refl
      refl
