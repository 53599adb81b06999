-- ===== src/Graph/Cancel/Statuses.antt =====
-- Status moves of cancellation and of the graph's own status.
use the_bureau.Prelude.{ℕ, ◌+◌, String, Bool, true, false, Option, none, some, [], refl}
use the_bureau.StateMachine.{TaskStatus}
use the_bureau.Graph.Types.{
  active, completed, failed, canceled, validating, validation_failed, validated, merged, reworking,
  TaskNode, GraphStatus, ValidationFailure, no_patch, graph_canceled, graph_failed, registry_done,
  deregister, cleanup_workspace, registry_status, registry_failure, failed, canceled, validating,
  validation_failed, reworking,
}
use the_bureau.Graph.Env.{Env}
use the_bureau.Graph.Store.{find, all_tasks}
use the_bureau.Graph.Store.Obeys.{Obeys}
use the_bureau.Graph.Store.Follows.{
  Follows, Follows-preorder, ret, seq, loop, choose, pick, emit-Follows, call-Follows,
  modify-Follows, update_task_status-Follows, observe,
}
use the_bureau.Graph.Walk.Statuses.{walk-Follows}
use the_bureau.Graph.Cancel.{
  cancel_dependent, cascade_cancel, teardown, finish_registry, sync_registry, stamp,
  update_graph_status, kill_task_worker, cancel_one, cancel_graph, reap_stale_graph,
  is_terminal_graph,
}

pub cancel_dependent-Follows : (dep : String) → Obeys Follows (cancel_dependent dep)
unfolding cancel_dependent
cancel_dependent-Follows dep = record {
  along = λ s. pick s (find dep s.tasks) _ _ (Follows-preorder.still s) λ t.
      (choose _ _ _ (ret false) (
          seq _ _ (update_task_status-Follows dep TaskStatus.canceled no_patch)
            λ _. ret true)).along
        s;
}

pub cascade_cancel-Follows : (id : String) → Obeys Follows (cascade_cancel id)
unfolding cascade_cancel
cascade_cancel-Follows id =
    seq _ _ (walk-Follows cancel_dependent cancel_dependent-Follows id []) λ _. ret tt

module _ (env : Env) where
  teardown-Follows : (keep : Bool) → Obeys Follows (teardown env keep)
  unfolding teardown
  teardown-Follows keep = record {
    along = λ s.
        (seq _ _ (choose _ _ _ (call-Follows deregister) (ret tt))
            λ _. choose env.has_cleanup _ _ (call-Follows cleanup_workspace) (ret tt)).along
          s;
  }

  finish_registry-Follows :
      (status : GraphStatus) (at : Option ℕ) → Obeys Follows (finish_registry env status at)
  unfolding finish_registry
  finish_registry-Follows status at =
      seq _ _ (call-Follows registry_done)
        λ _. seq _ _ (choose _ _ _ (call-Follows _) (ret tt)) λ _. teardown-Follows false

  sync_registry-Follows :
      (status : GraphStatus) (f : Option ValidationFailure) (at : Option ℕ)
      → Obeys Follows (sync_registry env status f at)
  unfolding sync_registry is_terminal_graph
  sync_registry-Follows validating f at = call-Follows (registry_status validating)
  sync_registry-Follows reworking f at = call-Follows (registry_status reworking)
  sync_registry-Follows validation_failed (some f) at =
      seq _ _ (call-Follows (registry_failure f)) λ _. teardown-Follows true
  sync_registry-Follows validation_failed none at = finish_registry-Follows validation_failed at
  sync_registry-Follows completed f at = finish_registry-Follows completed at
  sync_registry-Follows failed f at = finish_registry-Follows failed at
  sync_registry-Follows canceled f at = finish_registry-Follows canceled at
  sync_registry-Follows validated f at = finish_registry-Follows validated at
  sync_registry-Follows merged f at = finish_registry-Follows merged at
  sync_registry-Follows active f at = ret tt

  pub update_graph_status-Follows :
      (status : GraphStatus) (f : Option ValidationFailure) (reason : Option String)
      → Obeys Follows (update_graph_status env status f reason)
  unfolding update_graph_status
  update_graph_status-Follows status f reason = record {
    along = λ s. pick s s.graph _ _ (Follows-preorder.still s) λ g.
        (seq _ _
            (modify-Follows (λ s'. record s' { graph = some (stamp env status reason g) })
              (λ _. refl))
            λ _.
              choose env.has_registry _ _
                (sync_registry-Follows status f (stamp env status reason g).completed_at)
                (ret tt)).along
          s;
  }

  kill_task_worker-Follows : (t : TaskNode) → Obeys Follows (kill_task_worker env t)
  unfolding kill_task_worker
  kill_task_worker-Follows t = choose _ _ _ (ret tt) (call-Follows _)

  cancel_one-Follows : (n : ℕ) (t : TaskNode) → Obeys Follows (cancel_one env n t)
  unfolding cancel_one
  cancel_one-Follows n t = choose _ _ _ (ret n) (
      seq _ _ (update_task_status-Follows t.id TaskStatus.canceled no_patch)
        λ _. seq _ _ (choose _ _ _ (kill_task_worker-Follows t) (ret tt)) λ _. ret (n + 1))

  pub cancel_graph-Follows : Obeys Follows (cancel_graph env)
  unfolding cancel_graph
  cancel_graph-Follows =
      seq _ _ (modify-Follows (λ s. record s { retry_timers = [] }) (λ _. refl)) λ _. observe _ λ s.
        seq _ _ (loop _ 0 (all_tasks s) cancel_one-Follows) λ count.
          seq _ _ (update_graph_status-Follows canceled none none)
            λ _. seq _ _ (emit-Follows graph_canceled none) λ _. ret count

  pub reap_stale_graph-Follows : Obeys Follows (reap_stale_graph env)
  unfolding reap_stale_graph
  reap_stale_graph-Follows = record {
    along = λ s. pick s s.graph _ _ (Follows-preorder.still s) λ g.
        (choose _ _ _
            (seq _ _ (modify-Follows (λ s'. record s' { retry_timers = [] }) (λ _. refl)) λ _.
              seq _ _ (update_graph_status-Follows failed none none)
                λ _. seq _ _ (emit-Follows graph_failed none) λ _. ret true)
            (ret false)).along
          s;
  }
