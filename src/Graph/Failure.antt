-- ===== src/Graph/Failure.antt =====
-- What happens when a worker fails or yields, and when a yield is resolved (src/task-graph.ts:
-- onTaskFailed, onTaskYielded, resumeYieldedTask, onValidationCompleted). A handler that ends in
-- a call of checkGraphCompletion, or of itself on the graph into which this one was merged,
-- returns that call as its result: `next` is what the source does last.
pub mod Statuses
use the_bureau.RetryPolicy.{next_backoff_ms}
use the_bureau.Prelude.{
  ℕ, ◌+◌, ◌-◌, String, Bool, true, false, not, ◌&&◌, ◌||◌, Option, none, some, List, [], ◌∷◌, ◌++◌,
  str_eq, set_add, get_or, is_some, ◌==◌, ltb, leb, if◌then◌else◌,
}
use the_bureau.StateMachine.{
  TaskStatus, pending, ready, running, completed, failed, canceled, yielded, same_status,
  is_terminal,
}
use the_bureau.Graph.Types.{
  TaskNode, TaskGraph, GraphStatus, Patch, no_patch, YieldContext, task_failed, task_yielded,
  yield_auto_resolved, start_escalation, graph_validated, graph_validation_failed, merged,
  validated, validation_failed,
}
use the_bureau.Graph.Env.{Env}
use the_bureau.Graph.Store.{
  Store, Result, return, raise, Action, pure, throw, get, modify, ◌>>=◌, ◌>>◌, fold_m, find, emit,
  call, update_task_status, update_task_fields,
}
use the_bureau.Graph.Dispatch.{dispatch_ready_tasks}
use the_bureau.Graph.Cancel.{cascade_cancel, update_graph_status}
use the_bureau.Graph.Retry.{reset_task_for_retry, resume_dispatch, resolve_yield}

pub data Next : Type 0 where
  finished check_completion : Next
  redirect : String → Next

pub record FailOptions : Type 0 where
  pub skip_retry : Bool
  pub failure_reason : Option String

-- `currentGraph?.status === 'merged' && currentGraph.mergedIntoGraphId`
unfoldable pub merged_into : Option TaskGraph → Option String
merged_into none = none
merged_into (some g) = elim g.status [
  | GraphStatus.merged ↦
      (if str_eq (get_or g.merged_into_graph_id "") "" then none else g.merged_into_graph_id)
  | _ ↦ none
]

-- Exit 137 (SIGKILL) or 139 (SIGSEGV), on the first attempt.
pub is_kill : ℕ → TaskNode → Bool
is_kill exit_code t = (exit_code == 137 || exit_code == 139) && t.retries == 0

-- Which of the timers fires does not show: one of them is gone after it.
drop_one : List ℕ → List ℕ
drop_one [] = []
drop_one (delay ∷ delays) = delays

module _ (env : Env) where
  -- The `try` … `catch` of `resumeYieldedTask` around the dispatch.
  pub catch_dispatch : String → Result Unit × Store → Result Next × Store
  catch_dispatch id (return _, s) = pure finished s
  catch_dispatch id (raise e, s) =
      (do update_task_status id failed no_patch; emit task_failed (some id); pure check_completion)
        s

  try_dispatch : String → Action Next
  unfolding catch_dispatch
  try_dispatch id s = catch_dispatch id (dispatch_ready_tasks env (id ∷ []) none false s)

  resume_resolved : String → Option YieldContext → Action Next
  unfolding try_dispatch
  resume_resolved id none = pure finished
  resume_resolved id (some y) = do
    modify (λ s. record s { resume_notes = id ∷ s.resume_notes })
    update_task_status id ready no_patch
    emit yield_auto_resolved (some id)
    try_dispatch id

  unfoldable pub resume_yielded_task : String → Action Next
  unfolding resume_resolved
  resume_yielded_task id =
      if env.has_yield_manager
      then (do resolved ← resolve_yield id; resume_resolved id resolved)
      else pure finished

  retry_killed : String → Action Unit
  retry_killed id = do
    update_task_status id ready no_patch
    update_task_fields id none (record no_patch { retries = some 1; session_id = some none })
    emit task_failed (some id)
    dispatch_ready_tasks env (id ∷ []) none true

  -- The retry after a backoff; a delay of 0 resumes at once, any other registers a timer.
  retry_later : String → TaskNode → Action Unit
  retry_later id t = do
    reset_task_for_retry id (t.retries + 1) false
    let delay_ms = env.next_backoff_ms t.retries
    if delay_ms == 0
        then (resume_dispatch env >> pure tt)
        else modify (λ s. record s { retry_timers = delay_ms ∷ s.retry_timers })

  -- `g && g.status !== "canceled" && g.status !== "completed" && g.status !== "failed"`
  is_open : Option TaskGraph → Bool
  is_open none = false
  is_open (some g) = elim g.status [
    | GraphStatus.canceled ↦ false
    | GraphStatus.completed ↦ false
    | GraphStatus.failed ↦ false
    | _ ↦ true
  ]

  -- A registered retry timer fires: it leaves the registry, and dispatch resumes unless the graph
  -- is gone or has ended. A rejection is logged and dropped.
  pub on_retry_timer : Action Unit
  unfolding is_open drop_one
  on_retry_timer s =
      let s' = record s { retry_timers = drop_one s.retry_timers } in
      (return tt, if is_open s.graph then (resume_dispatch env s').1 else s')

  fail_for_good : String → String → ℕ → Option String → Action Next
  fail_for_good id session exit_code reason = do
    update_task_status id failed (record no_patch {
      session_id = some (some session);
      exit_code = some (some exit_code);
      completed_at = some (some env.now);
      failure_reason = if is_some reason then some reason else none;
    })
    emit task_failed (some id)
    cascade_cancel id
    pure check_completion

  fail_live : String → String → ℕ → FailOptions → TaskNode → Action Next
  unfolding is_kill retry_killed retry_later fail_for_good
  fail_live id session exit_code options t =
      if not options.skip_retry && is_kill exit_code t
      then (retry_killed id >> pure finished)
      else if not options.skip_retry && ltb t.retries t.max_retries
      then (retry_later id t >> pure finished)
      else fail_for_good id session exit_code options.failure_reason

  fail_here : String → String → ℕ → FailOptions → Action Next
  unfolding fail_live
  fail_here id session exit_code options s = elim (find id s.tasks) [
    | none ↦ pure finished s
    | some t ↦
        (if is_terminal t.status then pure finished else fail_live id session exit_code options t) s
  ]

  pub on_task_failed : String → String → ℕ → FailOptions → Action Next
  unfolding merged_into fail_here
  on_task_failed id session exit_code options s = elim (merged_into s.graph) [
    | none ↦ fail_here id session exit_code options s
    | some target ↦ pure (redirect target) s
  ]

  -- The guard of `onTaskYielded`: a task that is neither running nor yielded was resolved.
  may_yield : Option TaskNode → Bool
  may_yield none = true
  may_yield (some t) = same_status t.status running || same_status t.status yielded

  -- `sadd` of a runtime dependency and of its reverse.
  add_edge : String → Unit {0} → String → Action Unit
  add_edge id _ agent = modify (λ s. record s {
    deps = λ j. if str_eq id j then set_add agent (s.deps j) else s.deps j;
    rdeps = λ j. if str_eq agent j then set_add id (s.rdeps j) else s.rdeps j;
  })

  pub on_task_yielded : String → YieldContext → Action Unit
  unfolding may_yield add_edge
  on_task_yielded id y s =
      (if may_yield (find id s.tasks)
          then (do
            update_task_status id yielded no_patch
            update_task_fields id none (record no_patch { completed_at = some none })
            emit task_yielded (some id)
            fold_m (add_edge id) tt y.agents
            if env.has_escalation then call (start_escalation id) else pure tt)
          else pure tt)
        s

  pub on_validation_completed : Bool → Action Unit
  on_validation_completed true =
      update_graph_status env GraphStatus.validated none none >> emit graph_validated none
  on_validation_completed false =
      update_graph_status env GraphStatus.validation_failed none none
      >> emit graph_validation_failed none
