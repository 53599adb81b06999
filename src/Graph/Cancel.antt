-- ===== src/Graph/Cancel.antt =====
-- Cancellation (src/task-graph.ts: cascadeCancel, cancelGraph, reapStaleGraph, killTaskWorker)
-- and updateGraphStatus, which the terminal paths end in.
pub mod Statuses
pub mod Verdicts
pub mod Laws
use the_bureau.Prelude.{
  ℕ, ◌+◌, String, Bool, true, false, not, ◌&&◌, ◌||◌, Option, none, some, List, [], ◌∷◌, str_eq,
  get_or, is_some, if◌then◌else◌,
}
use the_bureau.StateMachine.{TaskStatus, same_status, is_terminal, running}
use the_bureau.StateMachine
use the_bureau.Graph.Types.{
  TaskNode, TaskGraph, GraphStatus, active, completed, failed, canceled, validating,
  validation_failed, validated, merged, reworking, ValidationFailure, no_patch, graph_canceled,
  graph_failed, kill_worker, registry_status, registry_done, registry_failure,
  clear_failures_older_than, deregister, cleanup_workspace,
}
use the_bureau.Graph.Env.{Env}
use the_bureau.Graph.Store.{
  Store, Action, pure, throw, get, modify, ◌>>=◌, ◌>>◌, fold_m, find, all_tasks, emit, call,
  update_task_status,
}
use the_bureau.Graph.Walk.{walk}

-- What `cascadeCancel` does at a dependent: cancel it unless it has completed or runs.
unfoldable pub cancel_dependent : String → Action Bool
cancel_dependent dep s = elim (find dep s.tasks) [
  | none ↦ pure false s
  | some t ↦
      (if same_status t.status TaskStatus.completed || same_status t.status TaskStatus.running
          then pure false
          else (update_task_status dep TaskStatus.canceled no_patch >> pure true))
        s
]

unfoldable pub cascade_cancel : String → Action Unit
unfolding cancel_dependent
cascade_cancel failed_task = walk cancel_dependent failed_task [] >> pure tt

-- `["completed", "failed", "canceled", "verified", "verification_failed"].includes(status)`; the
-- last two are no graph statuses.
pub stamps_completion : GraphStatus → Bool
stamps_completion completed = true
stamps_completion failed = true
stamps_completion canceled = true
stamps_completion _ = false

-- TERMINAL_GRAPH_STATUSES
unfoldable pub is_terminal_graph : GraphStatus → Bool
is_terminal_graph completed = true
is_terminal_graph validated = true
is_terminal_graph validation_failed = true
is_terminal_graph failed = true
is_terminal_graph merged = true
is_terminal_graph canceled = true
is_terminal_graph _ = false

succeeded : GraphStatus → Bool
succeeded validated = true
succeeded completed = true
succeeded _ = false

module _ (env : Env) where
  -- `teardownGraph`
  teardown : Bool → Action Unit
  teardown keep_summary s =
      ((if is_some s.graph && env.has_registry && not keep_summary
            then call deregister
            else pure tt)
          >> (if env.has_cleanup then call cleanup_workspace else pure tt))
        s

  finish_registry : GraphStatus → Option ℕ → Action Unit
  unfolding teardown succeeded
  finish_registry status completed_at = do
    call registry_done
    if succeeded status
        then call (clear_failures_older_than (get_or completed_at env.now))
        else pure tt
    teardown false

  -- The registry part of `updateGraphStatus`.
  sync_registry : GraphStatus → Option ValidationFailure → Option ℕ → Action Unit
  unfolding finish_registry is_terminal_graph
  sync_registry validating failure at = call (registry_status validating)
  sync_registry reworking failure at = call (registry_status reworking)
  sync_registry validation_failed (some f) at = call (registry_failure f) >> teardown true
  sync_registry status failure at =
      if is_terminal_graph status then finish_registry status at else pure tt

  stamp : GraphStatus → Option String → TaskGraph → TaskGraph
  unfolding stamps_completion
  stamp status reason g = record g {
    status = status;
    failure_reason = if is_some reason then reason else g.failure_reason;
    completed_at = if stamps_completion status then some env.now else g.completed_at;
  }

  pub update_graph_status : GraphStatus → Option ValidationFailure → Option String → Action Unit
  unfolding stamp sync_registry
  update_graph_status status failure reason s = elim s.graph [
    | none ↦ pure tt s
    | some g ↦
        let g' = stamp status reason g in
        (modify (λ s'. record s' { graph = some g' })
            >> (if env.has_registry then sync_registry status failure g'.completed_at else pure tt))
          s
  ]

  -- `killTaskWorker`; an empty session id is falsy.
  kill_task_worker : TaskNode → Action Unit
  kill_task_worker t =
      let session = get_or t.session_id "" in
      if str_eq session "" || not env.has_kill_worker then pure tt else call (kill_worker session t)

  -- One round of the loop of `cancelGraph`; the count is of the tasks canceled.
  cancel_one : ℕ → TaskNode → Action ℕ
  unfolding kill_task_worker
  cancel_one canceled_so_far t = if is_terminal t.status then pure canceled_so_far else (do
    update_task_status t.id TaskStatus.canceled no_patch
    if same_status t.status TaskStatus.running then kill_task_worker t else pure tt
    pure (canceled_so_far + 1))

  pub cancel_graph : Action ℕ
  unfolding cancel_one update_graph_status
  cancel_graph = do
    modify (λ s. record s { retry_timers = [] })
    s ← get
    count ← fold_m cancel_one 0 (all_tasks s)
    update_graph_status canceled none none
    emit graph_canceled none
    pure count

  -- `status !== "active" && status !== "validating" && status !== "reworking"`, negated
  can_reap : GraphStatus → Bool
  can_reap active = true
  can_reap validating = true
  can_reap reworking = true
  can_reap _ = false

  pub reap_stale_graph : Action Bool
  unfolding can_reap
  reap_stale_graph s = elim s.graph [
    | none ↦ pure false s
    | some g ↦
        (if can_reap g.status
            then (do
              modify (λ s'. record s' { retry_timers = [] })
              update_graph_status failed none none
              emit graph_failed none
              pure true)
            else pure false)
          s
  ]
