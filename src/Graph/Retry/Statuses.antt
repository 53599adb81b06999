-- ===== src/Graph/Retry/Statuses.antt =====
-- Status moves of retries and of the resumption of dispatch.
use the_bureau.Graph.Walk.Statuses.{walk-Follows}
use the_bureau.Graph.Readiness.{deps_ready_and_merged}
use the_bureau.StateMachine.{pending, ready, yielded, canceled, same_status}
use the_bureau.Graph.Dispatch.Statuses.{dispatch_ready_tasks-Follows}
use the_bureau.StateMachine.{same_status, pending, yielded, ready}
use the_bureau.Graph.Types.{
  TaskGraph, TaskNode, YieldContext, canceled, GraphStatus, cancel_escalation, no_patch,
  not_retryable, task_retried,
}
use the_bureau.Graph.Store.Follows.{
  Follows, seq, ret, pick, observe, choose, Follows-preorder, loop, update_task_status-Follows,
  modify-Follows, call-Follows, emit-Follows, throws,
}
use the_bureau.Graph.Store.Obeys.{Obeys}
use the_bureau.Prelude.{
  String, List, ℕ, Option, Bool, ◌∷◌, ◌++◌, false, [], ◌&&◌, all, contains, if◌then◌else◌, none,
  refl, some, str_eq, true,
}
use the_bureau.Graph.Env.{Env}
use the_bureau.Graph.Store.{find, all_tasks}
use the_bureau.Graph.Retry.{
  reset_fields, reset_dependent, dep_is_ok, reset_task_for_retry, resolve_yield, add_note, requeue,
  resume_waiting, resume_task, dispatch_all, resume_dispatch, can_retry, drop_yield, write_active,
  reactivate, retry_found, retry_task, was_stopped, cleared,
}

pub reset_dependent-Follows : (dep : String) → Obeys Follows (reset_dependent dep)
unfolding reset_dependent
reset_dependent-Follows dep = record {
  along = λ s. pick s (find dep s.tasks) _ _ (Follows-preorder.still s) λ t.
      (choose (same_status t.status canceled && all (dep_is_ok s) (s.deps dep)) _ _
          (seq _ _ (update_task_status-Follows dep pending cleared) λ _. ret true)
          (ret false)).along
        s;
}

pub reset_task_for_retry-Follows :
    (id : String) (retries : ℕ) (dependents : Bool)
    → Obeys Follows (reset_task_for_retry id retries dependents)
unfolding reset_task_for_retry
reset_task_for_retry-Follows id retries dependents = observe _ λ s.
    seq _ _ (update_task_status-Follows id pending (reset_fields retries (find id s.tasks))) λ _.
      seq _ _
        (choose dependents _ _ (walk-Follows reset_dependent reset_dependent-Follows id (id ∷ []))
          (ret []))
        λ reset. seq _ _ (emit-Follows task_retried (some id)) λ _. ret reset

pub resolve_yield-Follows : (id : String) → Obeys Follows (resolve_yield id)
unfolding resolve_yield
resolve_yield-Follows id = record {
  along = λ s. pick s (s.yields id) _ _ (Follows-preorder.still s) λ y.
      (seq _ _
          (modify-Follows
            (λ s'. record s' { yields = λ j. if str_eq id j then none else s'.yields j })
            (λ _. refl))
          λ _. ret (some y)).along
        s;
}

add_note-Follows : (id : String) (y : Option YieldContext) → Obeys Follows (add_note id y)
unfolding add_note
add_note-Follows id none = ret tt
add_note-Follows id (some y) =
    modify-Follows (λ s. record s { resume_notes = id ∷ s.resume_notes }) (λ _. refl)

requeue-Follows : (id : String) → Obeys Follows (requeue id)
unfolding requeue
requeue-Follows id =
    seq _ _ (update_task_status-Follows id pending no_patch)
      λ _. update_task_status-Follows id ready no_patch

module _ (env : Env) where
  resume_waiting-Follows :
      (queue : List String) (id : String) (y : Option YieldContext)
      → Obeys Follows (resume_waiting env queue id y)
  unfolding resume_waiting
  resume_waiting-Follows queue id none = record {
    along = λ s. (seq _ _ (requeue-Follows id) λ _. ret (queue ++ id ∷ [])).along s;
  }
  resume_waiting-Follows queue id (some y) = record {
    along = λ s.
        (choose (all (λ a. contains a s.completed) y.agents) _ _
            (seq _ _ (resolve_yield-Follows id) λ resolved.
              seq _ _ (add_note-Follows id resolved)
                λ _. seq _ _ (requeue-Follows id) λ _. ret (queue ++ id ∷ []))
            (ret queue)).along
          s;
  }

  resume_task-Follows :
      (queue : List String) (t : TaskNode) → Obeys Follows (resume_task env queue t)
  unfolding resume_task
  resume_task-Follows queue t = record {
    along = λ s.
        (choose (same_status t.status ready) _ _ (ret (queue ++ t.id ∷ [])) (
            choose (same_status t.status pending && deps_ready_and_merged s t.id) _ _
              (seq _ _ (update_task_status-Follows t.id ready no_patch)
                λ _. ret (queue ++ t.id ∷ []))
              (choose (same_status t.status yielded && env.has_yield_manager) _ _
                (resume_waiting-Follows queue t.id (s.yields t.id)) (ret queue)))).along
          s;
  }

  dispatch_all-Follows : (ids : List String) → Obeys Follows (dispatch_all env ids)
  unfolding dispatch_all
  dispatch_all-Follows [] = ret tt
  dispatch_all-Follows (id ∷ ids) = dispatch_ready_tasks-Follows env (id ∷ ids) none false

  pub resume_dispatch-Follows : Obeys Follows (resume_dispatch env)
  unfolding resume_dispatch
  resume_dispatch-Follows = record {
    along = λ s.
        (seq _ _ (loop _ [] (all_tasks s) resume_task-Follows)
            λ queue. seq _ _ (dispatch_all-Follows queue) λ _. ret queue).along
          s;
  }

  drop_yield-Follows : (id : String) (t : TaskNode) → Obeys Follows (drop_yield env id t)
  unfolding drop_yield
  drop_yield-Follows id t =
      choose (same_status t.status yielded && env.has_yield_manager) _ _
        (seq _ _ (resolve_yield-Follows id)
          λ _. choose env.has_escalation _ _ (call-Follows (cancel_escalation id)) (ret tt))
        (ret tt)

  write_active-Follows : Obeys Follows (write_active env)
  unfolding write_active
  write_active-Follows = record {
    along = λ s. pick s s.graph _ _ (Follows-preorder.still s) λ g.
        (seq _ _
            (modify-Follows
              (λ s'. record s' {
                graph = some (record g {
                  status = GraphStatus.active;
                  completed_at = none;
                  failure_reason = none;
                });
              })
              (λ _. refl))
            λ _. ret true).along
          s;
  }

  retry_found-Follows :
      (id : String) (g : TaskGraph) (t : TaskNode) (b : Bool)
      → Obeys Follows (retry_found env id g t b)
  unfolding retry_found reactivate
  retry_found-Follows id g t b =
      choose (can_retry env t.status) _ _
        (seq _ _ (drop_yield-Follows id t) λ _.
          seq _ _ (reset_task_for_retry-Follows id 0 b) λ reset.
            seq _ _ (choose (was_stopped env g.status) _ _ write_active-Follows (ret false))
              λ again. seq _ _ resume_dispatch-Follows λ _.
                ret (record { retried_task = id; reset_tasks = reset; graph_reactivated = again }))
        (throws not_retryable)

  pub retry_task-Follows : (id : String) (b : Bool) → Obeys Follows (retry_task env id b)
  unfolding retry_task
  retry_task-Follows id b = record {
    along = λ s. pick s s.graph _ _ (Follows-preorder.still s) λ g.
        pick s (find id s.tasks) _ _ (Follows-preorder.still s)
          λ t. (retry_found-Follows id g t b).along s;
  }
