-- ===== src/Graph/Dispatch/Statuses.antt =====
-- Status moves of the dispatch of ready tasks.
use the_bureau.StateMachine.{ready}
use the_bureau.Prelude.{String, Bool, false, Option, none, some, List, refl, true, ◌∷◌, []}
use the_bureau.Graph.Types.{TaskNode, graph_started, task_stale, no_patch, not_awaiting_approval}
use the_bureau.Graph.Env.{Env}
use the_bureau.Graph.Store.{find}
use the_bureau.Graph.Store.Obeys.{Obeys}
use the_bureau.Graph.Store.Follows.{
  Follows, Follows-preorder, ret, throws, seq, loop, choose, pick, emit-Follows, call-Follows,
  update_task_status-Follows, modify-Follows,
}
use the_bureau.Graph.Dispatch.{
  on_dispatch, start_task, announce_start, start_tasks, claim_dispatch, dispatch_claimed,
  dispatch_ready_tasks, approve_task,
}

module _ (env : Env) where
  on_dispatch-Follows : (t : TaskNode) → Obeys Follows (on_dispatch env t)
  unfolding on_dispatch
  on_dispatch-Follows t = seq _ _ (call-Follows _) (λ _. choose _ _ _ (throws _) (ret tt))

  start_task-Follows : (u : Unit {0}) (id : String) → Obeys Follows (start_task env u id)
  unfolding start_task
  start_task-Follows u id = record {
    along = λ s. pick s (find id s.tasks) _ _ (Follows-preorder.still s) λ t.
        (seq _ _ (update_task_status-Follows _ _ _)
            λ _. seq _ _ (emit-Follows _ _) λ _. on_dispatch-Follows _).along
          s;
  }

  announce_start-Follows : Obeys Follows (announce_start env)
  unfolding announce_start
  announce_start-Follows = record {
    along = λ s.
        (choose s.started_flag _ _ (ret tt) (
            seq _ _ (modify-Follows (λ s'. record s' { started_flag = true }) (λ _. refl))
              λ _. emit-Follows graph_started none)).along
          s;
  }

  start_tasks-Follows : (o : Option (List String)) → Obeys Follows (start_tasks env o)
  unfolding start_tasks
  start_tasks-Follows none = ret tt
  start_tasks-Follows (some ids) =
      choose _ _ _ (emit-Follows _ _)
        (seq _ _ announce_start-Follows λ _. loop _ _ ids start_task-Follows)

  claim_dispatch-Follows : (b : Bool) → Obeys Follows (claim_dispatch env b)
  unfolding claim_dispatch
  claim_dispatch-Follows b = record {
    along = λ s.
        (choose _ _ _ (ret true) (
            choose _ _ _ (seq _ _ (emit-Follows task_stale none) λ _. ret false) (
              seq _ _
                (modify-Follows (λ s'. record s' { orchestrator = some env.session }) (λ _. refl))
                λ _. ret true))).along
          s;
  }

  dispatch_claimed-Follows :
      (ids : List String) (c : Option (List TaskNode)) → Obeys Follows (dispatch_claimed env ids c)
  unfolding dispatch_claimed
  dispatch_claimed-Follows ids c = record {
    along =
        λ s. pick s s.graph _ _ (Follows-preorder.still s) (λ g. (start_tasks-Follows _).along s);
  }

  pub dispatch_ready_tasks-Follows :
      (ids : List String) (c : Option (List TaskNode)) (b : Bool)
      → Obeys Follows (dispatch_ready_tasks env ids c b)
  unfolding dispatch_ready_tasks
  dispatch_ready_tasks-Follows ids c b =
      seq _ _ (claim_dispatch-Follows b)
        λ ok. choose ok _ _ (dispatch_claimed-Follows ids c) (ret tt)

  pub approve_task-Follows : (id : String) → Obeys Follows (approve_task env id)
  unfolding approve_task
  approve_task-Follows id = record {
    along = λ s. pick s (find id s.tasks) _ _ (Follows-preorder.still s) λ t.
        (choose _ _ _
            (seq _ _ (update_task_status-Follows id ready no_patch)
              λ _. dispatch_ready_tasks-Follows (id ∷ []) none false)
            (throws not_awaiting_approval)).along
          s;
  }
