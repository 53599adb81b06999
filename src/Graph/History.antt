-- ===== src/Graph/History.antt =====
-- Any sequence of handler calls on one graph of src/task-graph.ts, each of which may return or
-- throw half-way. Handlers run one after the other here: the engine's interleaving of two of
-- them at their `await`s is not modelled.
use the_bureau.Graph.Store.{expire}
use the_bureau.Completion.Reconcile.Laws.{resume_rework_round-Follows}
use the_bureau.Completion.Reconcile.{Reconciler, resume_rework_round}
use the_bureau.Completion.Task.{on_task_completed}
use the_bureau.Completion.Task.Statuses.{on_task_completed-Follows}
use the_bureau.Completion.Statuses.{check_graph_completion-Follows}
use the_bureau.Graph.Add.Statuses.{add_task-Follows}
use the_bureau.Completion.{Wiring, check_graph_completion}
use the_bureau.Graph.Add.{NewTask, add_task}
use the_bureau.Graph.Retry.Statuses.{resume_dispatch-Follows, retry_task-Follows}
use the_bureau.Graph.Retry.{resume_dispatch, retry_task}
use the_bureau.Graph.Readiness.Statuses.{ready_dependents_of-Follows}
use the_bureau.Graph.Readiness.{ready_dependents_of}
use the_bureau.Graph.Failure.Statuses.{
  on_retry_timer-Follows, on_task_failed-Follows, on_task_yielded-Follows,
  on_validation_completed-Follows, resume_yielded_task-Follows,
}
use the_bureau.Graph.Cancel.Statuses.{cancel_graph-Follows, reap_stale_graph-Follows}
use the_bureau.Graph.Cancel.{cancel_graph, reap_stale_graph}
use the_bureau.Graph.Dispatch.Statuses.{approve_task-Follows, dispatch_ready_tasks-Follows}
use the_bureau.Graph.Dispatch.{approve_task, dispatch_ready_tasks}
use the_bureau.Graph.Types.{TaskNode, YieldContext}
use the_bureau.Graph.Store.{Store, find, Expiry}
use the_bureau.Graph.Store.Follows.{Follows, Follows-preorder, Follows-of_same_tasks}
use the_bureau.Graph.Failure.{
  FailOptions, on_retry_timer, on_task_failed, on_task_yielded, on_validation_completed,
  resume_yielded_task,
}
use the_bureau.Prelude.{Bool, List, Option, String, [], some, ℕ, ◌∷◌, ◌≡◌, refl}
use the_bureau.StateMachine.{TaskStatus}
use the_bureau.StateMachine.Laws.{Trace, Trace-completed}
use the_bureau.Graph.Env.{Env}

-- A call of a public handler with its arguments.
pub data Handler : Type 0 where
  ready_dependents : String → List String → Handler
  dispatch_ready : List String → Option (List TaskNode) → Bool → Handler
  approve : String → Handler
  cancel reap resume_all retry_timer : Handler
  retry : String → Bool → Handler
  task_failed : String → String → ℕ → FailOptions → Handler
  task_yielded : String → YieldContext → Handler
  resume_yielded : String → Handler
  validation_done : Bool → Handler
  adds : NewTask → Handler
  completes : Wiring → String → String → ℕ → Handler
  checks : Wiring → Option (List TaskNode) → Handler
  reconciles : Reconciler → Handler
  -- no handler, but time that passes between two
  expires : Expiry → Handler

-- The store that a call leaves behind.
pub run : Env → Handler → Store → Store
run env (ready_dependents id newly) s = (ready_dependents_of id newly s).1
run env (dispatch_ready ids cached b) s = (dispatch_ready_tasks env ids cached b s).1
run env (approve id) s = (approve_task env id s).1
run env cancel s = (cancel_graph env s).1
run env reap s = (reap_stale_graph env s).1
run env resume_all s = (resume_dispatch env s).1
run env retry_timer s = (on_retry_timer env s).1
run env (retry id b) s = (retry_task env id b s).1
run env (task_failed id session code o) s = (on_task_failed env id session code o s).1
run env (task_yielded id y) s = (on_task_yielded env id y s).1
run env (resume_yielded id) s = (resume_yielded_task env id s).1
run env (validation_done b) s = (on_validation_completed env b s).1
run env (adds n) s = (add_task env n s).1
run env (completes w id session code) s =
    (on_task_completed (record w { env = env }) id session code s).1
run env (checks w cached) s = (check_graph_completion (record w { env = env }) cached s).1
run env (reconciles r) s =
    (resume_rework_round (record r { wiring = record r.wiring { env = env } }) s).1
run env (expires e) s = expire e s

run-Follows : (env : Env) (h : Handler) (s : Store) → Follows s (run env h s)
unfolding run expire
run-Follows env (ready_dependents id newly) s = (ready_dependents_of-Follows id newly).along s
run-Follows env (dispatch_ready ids cached b) s =
    (dispatch_ready_tasks-Follows env ids cached b).along s
run-Follows env (approve id) s = (approve_task-Follows env id).along s
run-Follows env cancel s = (cancel_graph-Follows env).along s
run-Follows env reap s = (reap_stale_graph-Follows env).along s
run-Follows env resume_all s = (resume_dispatch-Follows env).along s
run-Follows env retry_timer s = (on_retry_timer-Follows env).along s
run-Follows env (retry id b) s = (retry_task-Follows env id b).along s
run-Follows env (task_failed id session code o) s =
    (on_task_failed-Follows env id session code o).along s
run-Follows env (task_yielded id y) s = (on_task_yielded-Follows env id y).along s
run-Follows env (resume_yielded id) s = (resume_yielded_task-Follows env id).along s
run-Follows env (validation_done b) s = (on_validation_completed-Follows env b).along s
run-Follows env (adds n) s = (add_task-Follows env n).along s
run-Follows env (completes w id session code) s =
    (on_task_completed-Follows (record w { env = env }) id session code).along s
run-Follows env (checks w cached) s =
    (check_graph_completion-Follows (record w { env = env }) cached).along s
run-Follows env (reconciles r) s =
    resume_rework_round-Follows (record r { wiring = record r.wiring { env = env } }) s
run-Follows env (expires e) s = Follows-of_same_tasks s (expire e s) refl

pub run_all : List (Env × Handler) → Store → Store
run_all [] s = s
run_all ((env, h) ∷ calls) s = run_all calls (run env h s)

pub run_all-Follows : (calls : List (Env × Handler)) (s : Store) → Follows s (run_all calls s)
unfolding run_all
run_all-Follows [] s = Follows-preorder.still s
run_all-Follows ((env, h) ∷ calls) s =
    Follows-preorder.chain s (run env h s) _ (run-Follows env h s)
      (run_all-Follows calls (run env h s))

-- Whatever handlers are called, in whatever order and whether or not they throw, and whatever locks
-- run out between them, a task that was in the store is still there, and its status has gone
-- through single entries of the transition table only.
pub history-Trace :
    (calls : List (Env × Handler)) (s : Store) (id : String) (t : TaskNode)
    → find id s.tasks ≡ some t
    → (u : TaskNode) × (find id (run_all calls s).tasks ≡ some u) × Trace t.status u.status
history-Trace calls s id t found =
    let m = (run_all-Follows calls s).moved id t found in (m.node, m.present, m.trace)

-- A task that has completed stays completed through any history of handler calls.
pub history-completed :
    (calls : List (Env × Handler)) (s : Store) (id : String) (t : TaskNode)
    → find id s.tasks ≡ some t
    → t.status ≡ TaskStatus.completed
    → (u : TaskNode) × (find id (run_all calls s).tasks ≡ some u)
      × (u.status ≡ TaskStatus.completed)
history-completed calls s id t found ended =
    let m = (run_all-Follows calls s).moved id t found in
    (m.node, m.present, Trace-completed ended m.trace)
