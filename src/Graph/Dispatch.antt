-- ===== src/Graph/Dispatch.antt =====
-- Dispatch of ready tasks (src/task-graph.ts: dispatchReadyTasks, approveTask).
pub mod Statuses
pub mod Laws
use the_bureau.Prelude.{
  ℕ, String, Bool, true, false, not, ◌&&◌, ◌-◌, Option, none, some, List, [], ◌∷◌, str_eq, take,
  filter, length, leb, ◌==◌, get_or, if◌then◌else◌,
}
use the_bureau.StateMachine.{TaskStatus, ready, running, awaiting_approval, same_status}
use the_bureau.Graph.Types.{
  TaskNode, TaskGraph, Patch, no_patch, task_started, task_stale, graph_started, dispatched,
  dispatch_error, not_awaiting_approval,
}
use the_bureau.Graph.Env.{Env}
use the_bureau.Graph.Store.{
  Store, Action, pure, throw, get, modify, ◌>>=◌, ◌>>◌, fold_m, find, all_tasks, emit, call,
  update_task_status,
}

unfoldable pub running_count : List TaskNode → ℕ
running_count ts = length (filter (λ t. same_status t.status running) ts)

-- `owner && owner !== this.sessionId`
foreign : String → Option String → Bool
foreign session none = false
foreign session (some owner) = not (str_eq owner "") && not (str_eq owner session)

-- The tasks of `taskIds` for which there is room; `none` where the handler returns.
-- `maxConcurrency` of 0 is falsy, so it sets no limit.
unfoldable pub room : TaskGraph → List TaskNode → List String → Option (List String)
unfolding running_count
room g tasks ids =
    let limit = get_or g.max_concurrency 0 in
    if limit == 0
    then some ids
    else if leb limit (running_count tasks)
    then none
    else some (take (limit - running_count tasks) ids)

module _ (env : Env) where
  on_dispatch : TaskNode → Action Unit
  on_dispatch t = do
    call (dispatched t)
    if env.dispatch_fails t then throw dispatch_error else pure tt

  -- One round of the dispatch loop; a task that is gone is skipped.
  start_task : Unit {0} → String → Action Unit
  unfolding on_dispatch
  start_task _ id s = elim (find id s.tasks) [
    | none ↦ pure tt s
    | some t ↦
        (do
          update_task_status id running (record no_patch { started_at = some (some env.now) })
          emit task_started (some id)
          on_dispatch (record t { status = running; started_at = some env.now }))
          s
  ]

  -- `graph_started` is emitted once, on the first dispatch.
  announce_start : Action Unit
  announce_start s =
      (if s.started_flag
          then pure tt
          else (modify (λ s'. record s' { started_flag = true }) >> emit graph_started none))
        s

  start_tasks : Option (List String) → Action Unit
  unfolding start_task announce_start
  start_tasks none = pure tt
  start_tasks (some ids) =
      if env.low_memory then emit task_stale none else (announce_start >> fold_m start_task tt ids)

  -- The ownership check: false where another session owns the graph and the dispatch is not
  -- authoritative; otherwise the lease is claimed or renewed.
  claim_dispatch : Bool → Action Bool
  unfolding foreign
  claim_dispatch authoritative s =
      (if str_eq env.session ""
          then pure true
          else if not authoritative && foreign env.session s.orchestrator
          then (emit task_stale none >> pure false)
          else (modify (λ s'. record s' { orchestrator = some env.session }) >> pure true))
        s

  dispatch_claimed : List String → Option (List TaskNode) → Action Unit
  unfolding room start_tasks
  dispatch_claimed ids cached s = elim s.graph [
    | none ↦ pure tt s
    | some g ↦ start_tasks (room g (get_or cached (all_tasks s)) ids) s
  ]

  pub dispatch_ready_tasks : List String → Option (List TaskNode) → Bool → Action Unit
  unfolding claim_dispatch dispatch_claimed
  dispatch_ready_tasks ids cached authoritative = do
    claimed ← claim_dispatch authoritative
    if claimed then dispatch_claimed ids cached else pure tt

  pub approve_task : String → Action Unit
  unfolding dispatch_ready_tasks
  approve_task id s = elim (find id s.tasks) [
    | none ↦ throw not_awaiting_approval s
    | some t ↦
        (if same_status t.status awaiting_approval
            then (do
              update_task_status id ready no_patch
              dispatch_ready_tasks (id ∷ []) none false)
            else throw not_awaiting_approval)
          s
  ]
