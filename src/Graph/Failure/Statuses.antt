-- ===== src/Graph/Failure/Statuses.antt =====
-- Status moves when workers fail or yield.
use the_bureau.Graph.Dispatch.{dispatch_ready_tasks}
use the_bureau.Graph.Retry.{resume_dispatch}
use the_bureau.Graph.Dispatch.Statuses.{dispatch_ready_tasks-Follows}
use the_bureau.Graph.Cancel.Statuses.{update_graph_status-Follows, cascade_cancel-Follows}
use the_bureau.Graph.Retry.Statuses.{
  reset_task_for_retry-Follows, resolve_yield-Follows, resume_dispatch-Follows,
}
use the_bureau.Graph.Store.{Store, Result, find, raise, return}
use the_bureau.Graph.Store.Follows.{
  Follows, seq, pick, choose, ret, Follows-of_same_tasks, Follows-preorder,
  update_task_status-Follows, emit-Follows, call-Follows, loop, modify-Follows,
  update_task_fields-Follows,
}
use the_bureau.Graph.Store.Obeys.{Obeys}
use the_bureau.Prelude.{
  String, Bool, Option, ℕ, not, ◌&&◌, none, ◌+◌, ◌==◌, [], if◌then◌else◌, false, is_some, ltb, refl,
  some, true, ◌∷◌,
}
use the_bureau.Graph.Env.{Env}
use the_bureau.Graph.Types.{
  validated, validation_failed, TaskNode, YieldContext, no_patch, graph_validated,
  graph_validation_failed, start_escalation, task_failed, task_yielded, yield_auto_resolved,
}
use the_bureau.StateMachine.{failed, ready, yielded, is_terminal}
use the_bureau.Graph.Failure.{
  FailOptions, catch_dispatch, resume_resolved, resume_yielded_task, retry_killed, retry_later,
  fail_for_good, is_kill, is_open, drop_one, on_retry_timer, fail_live, fail_here, merged_into,
  on_task_failed, may_yield, add_edge, on_task_yielded, on_validation_completed, finished,
  check_completion, try_dispatch,
}

module _ (env : Env) where
  catch_dispatch-Follows :
      (id : String) (s : Store) (r : Result Unit × Store)
      → Follows s r.1
      → Follows s (catch_dispatch env id r).1
  unfolding catch_dispatch
  catch_dispatch-Follows id s (return _, s') h = h
  catch_dispatch-Follows id s (raise e, s') h = Follows-preorder.chain s s' _ h (
      (seq _ _ (update_task_status-Follows id failed no_patch)
          λ _. seq _ _ (emit-Follows task_failed (some id)) λ _. ret check_completion).along
        s')

  try_dispatch-Follows : (id : String) → Obeys Follows (try_dispatch env id)
  unfolding try_dispatch
  try_dispatch-Follows id = record {
    along = λ s.
        catch_dispatch-Follows id s (dispatch_ready_tasks env (id ∷ []) none false s)
          ((dispatch_ready_tasks-Follows env (id ∷ []) none false).along s);
  }

  resume_resolved-Follows :
      (id : String) (y : Option YieldContext) → Obeys Follows (resume_resolved env id y)
  unfolding resume_resolved
  resume_resolved-Follows id none = ret finished
  resume_resolved-Follows id (some y) =
      seq _ _ (modify-Follows (λ s. record s { resume_notes = id ∷ s.resume_notes }) (λ _. refl))
        λ _.
          seq _ _ (update_task_status-Follows id ready no_patch)
            λ _. seq _ _ (emit-Follows yield_auto_resolved (some id)) λ _. try_dispatch-Follows id

  pub resume_yielded_task-Follows : (id : String) → Obeys Follows (resume_yielded_task env id)
  unfolding resume_yielded_task
  resume_yielded_task-Follows id =
      choose env.has_yield_manager _ _
        (seq _ _ (resolve_yield-Follows id) λ y. resume_resolved-Follows id y) (ret finished)

  retry_killed-Follows : (id : String) → Obeys Follows (retry_killed env id)
  unfolding retry_killed
  retry_killed-Follows id = seq _ _ (update_task_status-Follows id ready no_patch) λ _.
      seq _ _
        (update_task_fields-Follows id none
          (record no_patch { retries = some 1; session_id = some none }))
        λ _.
          seq _ _ (emit-Follows task_failed (some id))
            λ _. dispatch_ready_tasks-Follows env (id ∷ []) none true

  retry_later-Follows : (id : String) (t : TaskNode) → Obeys Follows (retry_later env id t)
  unfolding retry_later
  retry_later-Follows id t = seq _ _ (reset_task_for_retry-Follows id (t.retries + 1) false) λ _.
      choose (env.next_backoff_ms t.retries == 0) _ _
        (seq _ _ (resume_dispatch-Follows env) λ _. ret tt)
        (modify-Follows
          (λ s. record s { retry_timers = env.next_backoff_ms t.retries ∷ s.retry_timers })
          (λ _. refl))

  fail_for_good-Follows :
      (id session : String) (exit_code : ℕ) (reason : Option String)
      → Obeys Follows (fail_for_good env id session exit_code reason)
  unfolding fail_for_good
  fail_for_good-Follows id session exit_code reason =
      seq _ _
        (update_task_status-Follows id failed (record no_patch {
          session_id = some (some session);
          exit_code = some (some exit_code);
          completed_at = some (some env.now);
          failure_reason = if is_some reason then some reason else none;
        }))
        λ _.
          seq _ _ (emit-Follows task_failed (some id))
            λ _. seq _ _ (cascade_cancel-Follows id) λ _. ret check_completion

  fail_live-Follows :
      (id session : String) (exit_code : ℕ) (o : FailOptions) (t : TaskNode)
      → Obeys Follows (fail_live env id session exit_code o t)
  unfolding fail_live
  fail_live-Follows id session exit_code o t =
      choose (not o.skip_retry && is_kill exit_code t) _ _
        (seq _ _ (retry_killed-Follows id) λ _. ret finished)
        (choose (not o.skip_retry && ltb t.retries t.max_retries) _ _
          (seq _ _ (retry_later-Follows id t) λ _. ret finished)
          (fail_for_good-Follows id session exit_code o.failure_reason))

  fail_here-Follows :
      (id session : String) (exit_code : ℕ) (o : FailOptions)
      → Obeys Follows (fail_here env id session exit_code o)
  unfolding fail_here
  fail_here-Follows id session exit_code o = record {
    along = λ s. pick s (find id s.tasks) _ _ (Follows-preorder.still s) λ t.
        (choose (is_terminal t.status) _ _ (ret finished)
            (fail_live-Follows id session exit_code o t)).along
          s;
  }

  pub on_task_failed-Follows :
      (id session : String) (exit_code : ℕ) (o : FailOptions)
      → Obeys Follows (on_task_failed env id session exit_code o)
  unfolding on_task_failed
  on_task_failed-Follows id session exit_code o = record {
    along = λ s.
        pick s (merged_into s.graph) _ _ ((fail_here-Follows id session exit_code o).along s)
          (λ target. Follows-preorder.still s);
  }

  timer :
      (s : Store) (b : Bool)
      → Follows s (
          if b
          then (resume_dispatch env (record s { retry_timers = drop_one s.retry_timers })).1
          else record s { retry_timers = drop_one s.retry_timers })
  timer s true =
      Follows-preorder.chain s (record s { retry_timers = drop_one s.retry_timers }) _
        (Follows-of_same_tasks s _ refl)
        ((resume_dispatch-Follows env).along (record s { retry_timers = drop_one s.retry_timers }))
  timer s false = Follows-of_same_tasks s _ refl

  pub on_retry_timer-Follows : Obeys Follows (on_retry_timer env)
  unfolding on_retry_timer
  on_retry_timer-Follows = record { along = λ s. timer s (is_open env s.graph) }

  add_edge-Follows :
      (id : String) (u : Unit {0}) (agent : String) → Obeys Follows (add_edge env id u agent)
  unfolding add_edge
  add_edge-Follows id u agent = record { along = λ s. Follows-of_same_tasks s _ refl }

  pub on_task_yielded-Follows :
      (id : String) (y : YieldContext) → Obeys Follows (on_task_yielded env id y)
  unfolding on_task_yielded
  on_task_yielded-Follows id y = record {
    along = λ s.
        (choose (may_yield env (find id s.tasks)) _ _
            (seq _ _ (update_task_status-Follows id yielded no_patch) λ _.
              seq _ _
                (update_task_fields-Follows id none (record no_patch { completed_at = some none }))
                λ _. seq _ _ (emit-Follows task_yielded (some id)) λ _.
                  seq _ _ (loop (add_edge env id) tt y.agents (add_edge-Follows id)) λ _.
                    choose env.has_escalation _ _ (call-Follows (start_escalation id)) (ret tt))
            (ret tt)).along
          s;
  }

  pub on_validation_completed-Follows : (b : Bool) → Obeys Follows (on_validation_completed env b)
  unfolding on_validation_completed
  on_validation_completed-Follows true =
      seq _ _ (update_graph_status-Follows env validated none none)
        λ _. emit-Follows graph_validated none
  on_validation_completed-Follows false =
      seq _ _ (update_graph_status-Follows env validation_failed none none)
        λ _. emit-Follows graph_validation_failed none
