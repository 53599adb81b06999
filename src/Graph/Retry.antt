-- ===== src/Graph/Retry.antt =====
-- Retries (src/task-graph.ts: resetTaskForRetry, retryTask, resumeDispatch).
pub mod Statuses
pub mod Laws
use the_bureau.RetryPolicy.Storm.{reset}
use the_bureau.Prelude.{
  ℕ, String, Bool, true, false, not, ◌&&◌, ◌||◌, Option, none, some, List, [], ◌∷◌, ◌++◌, contains,
  all, get_or, is_some, str_eq, if◌then◌else◌,
}
use the_bureau.StateMachine.{
  TaskStatus, pending, ready, completed, failed, canceled, yielded, same_status,
}
use the_bureau.Graph.Types.{
  TaskNode, TaskGraph, GraphStatus, Patch, no_patch, YieldContext, task_retried, graph_not_found,
  task_not_found, not_retryable, cancel_escalation, active,
}
use the_bureau.Graph.Env.{Env}
use the_bureau.Graph.Store.{
  Store, Action, pure, throw, get, modify, ◌>>=◌, ◌>>◌, fold_m, find, all_tasks, emit, call,
  update_task_status,
}
use the_bureau.Graph.Readiness.{deps_ready_and_merged}
use the_bureau.Graph.Dispatch.{dispatch_ready_tasks}
use the_bureau.Graph.Walk.{walk}

-- The fields that a reset clears.
abbrev pub cleared : Patch
cleared = record no_patch {
  session_id = some none;
  exit_code = some none;
  started_at = some none;
  completed_at = some none;
  failure_reason = some none;
}

-- The `extraFields` of `resetTaskForRetry`: a pod-mode task with a checkpoint branch resumes
-- from it. An empty branch name is falsy.
unfoldable pub reset_fields : ℕ → Option TaskNode → Patch
reset_fields new_retries none = record cleared { retries = some new_retries }
reset_fields new_retries (some t) =
    let fields = record cleared { retries = some new_retries } in
    if t.pod_mode && not (str_eq (get_or t.checkpoint_branch "") "")
    then record fields {
      git_base_ref = some t.checkpoint_branch;
      git_branch = some t.checkpoint_branch;
    }
    else fields

-- `!dTask || (dTask.status !== "completed" && dTask.status !== "pending")`, negated
dep_is_ok : Store → String → Bool
dep_is_ok s dep = elim (find dep s.tasks) [
  | none ↦ false
  | some t ↦ same_status t.status completed || same_status t.status pending
]

-- What the walk does at a dependent: reset it if it is canceled and all its dependencies are
-- completed or pending.
unfoldable pub reset_dependent : String → Action Bool
unfolding dep_is_ok
reset_dependent dep s = elim (find dep s.tasks) [
  | none ↦ pure false s
  | some t ↦
      (if same_status t.status canceled && all (dep_is_ok s) (s.deps dep)
          then (update_task_status dep pending cleared >> pure true)
          else pure false)
        s
]

unfoldable pub reset_task_for_retry : String → ℕ → Bool → Action (List String)
unfolding reset_fields reset_dependent
reset_task_for_retry id new_retries reset_dependents = do
  s ← get
  update_task_status id pending (reset_fields new_retries (find id s.tasks))
  reset ← if reset_dependents then walk reset_dependent id (id ∷ []) else pure []
  emit task_retried (some id)
  pure reset

-- `resolveYield`
unfoldable pub resolve_yield : String → Action (Option YieldContext)
resolve_yield id s = elim (s.yields id) [
  | none ↦ pure none s
  | some y ↦
      (modify (λ s'. record s' { yields = λ j. if str_eq id j then none else s'.yields j })
          >> pure (some y))
        s
]

add_note : String → Option YieldContext → Action Unit
add_note id none = pure tt
add_note id (some y) = modify (λ s. record s { resume_notes = id ∷ s.resume_notes })

-- yielded → pending → ready
requeue : String → Action Unit
requeue id = update_task_status id pending no_patch >> update_task_status id ready no_patch

module _ (env : Env) where
  -- The branch of `resumeDispatch` for a yielded task; `toDispatch` grows if it can go on.
  resume_waiting : List String → String → Option YieldContext → Action (List String)
  unfolding requeue resolve_yield add_note
  resume_waiting queue id none s = (requeue id >> pure (queue ++ id ∷ [])) s
  resume_waiting queue id (some y) s =
      (if all (λ a. contains a s.completed) y.agents
          then (do
            resolved ← resolve_yield id
            add_note id resolved
            requeue id
            pure (queue ++ id ∷ []))
          else pure queue)
        s

  -- One round of the loop of `resumeDispatch`, over the tasks as they were read before it.
  resume_task : List String → TaskNode → Action (List String)
  unfolding resume_waiting
  resume_task queue t s =
      (if same_status t.status ready
          then pure (queue ++ t.id ∷ [])
          else if same_status t.status pending && deps_ready_and_merged s t.id
          then (update_task_status t.id ready no_patch >> pure (queue ++ t.id ∷ []))
          else if same_status t.status yielded && env.has_yield_manager
          then resume_waiting queue t.id (s.yields t.id)
          else pure queue)
        s

  dispatch_all : List String → Action Unit
  dispatch_all [] = pure tt
  dispatch_all (id ∷ ids) = dispatch_ready_tasks env (id ∷ ids) none false

  pub resume_dispatch : Action (List String)
  unfolding resume_task dispatch_all
  resume_dispatch s =
      (do queue ← fold_m resume_task [] (all_tasks s); dispatch_all queue; pure queue) s

  can_retry : TaskStatus → Bool
  can_retry status =
      same_status status failed || same_status status canceled || same_status status yielded

  drop_yield : String → TaskNode → Action Unit
  drop_yield id t =
      if same_status t.status yielded && env.has_yield_manager
      then (do
        resolve_yield id
        if env.has_escalation then call (cancel_escalation id) else pure tt)
      else pure tt

  was_stopped : GraphStatus → Bool
  was_stopped GraphStatus.failed = true
  was_stopped GraphStatus.canceled = true
  was_stopped _ = false

  -- A failed or canceled graph is active again, with no completion time and no failure reason.
  -- `g` is the record read at the start, and what is written is the record as it stands.
  write_active : Action Bool
  write_active s = elim s.graph [
    | none ↦ pure false s
    | some g ↦
        (modify (λ s'. record s' {
          graph = some (record g {
            status = GraphStatus.active;
            completed_at = none;
            failure_reason = none;
          });
        })
            >> pure true)
          s
  ]

  reactivate : TaskGraph → Action Bool
  unfolding was_stopped write_active
  reactivate g = if was_stopped g.status then write_active else pure false

  pub record RetryResult : Type 0 where
    pub retried_task : String
    pub reset_tasks : List String
    pub graph_reactivated : Bool

  retry_found : String → TaskGraph → TaskNode → Bool → Action RetryResult
  unfolding can_retry drop_yield reactivate
  retry_found id g t reset_dependents =
      if can_retry t.status
      then (do
        drop_yield id t
        reset ← reset_task_for_retry id 0 reset_dependents
        again ← reactivate g
        resume_dispatch
        pure (record { retried_task = id; reset_tasks = reset; graph_reactivated = again }))
      else throw not_retryable

  pub retry_task : String → Bool → Action RetryResult
  unfolding retry_found
  retry_task id reset_dependents s = elim s.graph [
    | none ↦ throw graph_not_found s
    | some g ↦ elim (find id s.tasks) [
      | none ↦ throw task_not_found s
      | some t ↦ retry_found id g t reset_dependents s
    ]
  ]
