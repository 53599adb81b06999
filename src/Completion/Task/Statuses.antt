-- ===== src/Completion/Task/Statuses.antt =====
-- Status moves of onTaskCompleted in src/task-graph.ts.
use the_bureau.Graph.Types.{cancel_escalation}
use the_bureau.Graph.Cancel.Statuses.{update_graph_status-Follows}
use the_bureau.Graph.Retry.Statuses.{resolve_yield-Follows}
use the_bureau.Graph.Readiness.Statuses.{ready_dependents_of-Follows}
use the_bureau.Graph.Readiness.{ready_dependents_of}
use the_bureau.Completion.Promotion.{notify_parent-Steady}
use the_bureau.Graph.Failure.{merged_into}
use the_bureau.Graph.Dispatch.Statuses.{dispatch_ready_tasks-Follows}
use the_bureau.Completion.Statuses.{check_graph_completion-Follows}
use the_bureau.Graph.Add.Statuses.{add_task-Follows}
use the_bureau.Completion.Task.{
  add_coordinator, add_pending, after_coordinator, after_merge, branch_of, complete_live,
  drop_pending, fail_fix, finish, fix_failed, has_ended, ignored, integrate, is_conflict,
  is_integrated, merge_remotely, on_task_completed, reintegrate, release_waiting, resume_waiter,
  resume_waiters, resume_yield, skip_text,
}
use the_bureau.StateMachine.{TaskStatus}
use the_bureau.Graph.Types.{TaskGraph, YieldContext, no_patch}
use the_bureau.Graph.Store.Steady.{Steady-Follows}
use the_bureau.Graph.Store.Obeys.{Obeys}
use the_bureau.Completion.{Merging, RemoteMerge, Wiring}
use the_bureau.Graph.Store.Follows.{
  Follows, Follows-of_same_tasks, Follows-preorder, call-Follows, choose, emit-Follows, loop,
  modify-Follows, pick, ret, seq, update_task_fields-Follows, update_task_status-Follows,
}
use the_bureau.Prelude.{
  Bool, List, Option, String, [], if◌then◌else◌, false, is_some, none, not, refl, set_add, some,
  true, ℕ, ◌∷◌, ◌++◌,
}
use the_bureau.Graph.Store.{◌>>=◌, Action, find, pure}

module _ (w : Wiring) where
  add_pending-Follows : (id : String) → Obeys Follows (add_pending id)
  unfolding add_pending
  add_pending-Follows id = record { along = λ s. Follows-of_same_tasks s _ refl }

  drop_pending-Follows : (id : String) → Obeys Follows (drop_pending id)
  unfolding drop_pending
  drop_pending-Follows id = record { along = λ s. Follows-of_same_tasks s _ refl }

  reintegrate-Follows : (orig : String) (m : Merging) → Obeys Follows (reintegrate w orig m)
  unfolding reintegrate
  reintegrate-Follows orig m =
      choose (is_integrated m) _ _
        (seq _ _ (drop_pending-Follows orig) λ _. seq _ _ (emit-Follows _ _) λ _. ret (some orig))
        (seq _ _ (add_pending-Follows orig) λ _. seq _ _ (emit-Follows _ _) λ _. ret none)

  after_coordinator-Follows : (id : String) → Obeys Follows (after_coordinator w id)
  unfolding after_coordinator
  after_coordinator-Follows id = record {
    along = λ s. pick s w.remote _ _ (Follows-preorder.still s) λ r.
        pick s (find (skip_text 6 id) s.tasks) _ _ (Follows-preorder.still s) λ t.
          (choose _ _ _ (seq _ _ (call-Follows _) λ _. reintegrate-Follows _ _) (ret none)).along s;
  }

  add_coordinator-Follows :
      (id : String) (b : Option String) → Obeys Follows (add_coordinator w id b)
  unfolding add_coordinator
  add_coordinator-Follows id b = record { along = λ s. (add_task-Follows w.env _).along s }

  after_merge-Follows :
      (id : String) (b : Bool) (m : Merging) → Obeys Follows (after_merge w id b m)
  unfolding after_merge
  after_merge-Follows id b m =
      choose (is_integrated m) _ _
        (seq _ _ (drop_pending-Follows id) λ _. seq _ _ (emit-Follows _ _) λ _. ret false)
        (choose (is_conflict m) _ _
          (seq _ _ (drop_pending-Follows id) λ _. seq _ _ (emit-Follows _ _) λ _.
            choose b _ _ (ret true)
              (seq _ _ (add_coordinator-Follows id (branch_of m)) λ _. ret false))
          (seq _ _ (emit-Follows _ _) λ _. ret false))

  merge_remotely-Follows :
      (r : RemoteMerge) (id b : String) → Obeys Follows (merge_remotely w r id b)
  unfolding merge_remotely
  merge_remotely-Follows r id b = record {
    along = λ s.
        (seq _ _ (add_pending-Follows id) λ _.
            choose (not r.has_merge_capability) _ _ (seq _ _ (emit-Follows _ _) λ _. ret false) (
              seq _ _ (emit-Follows _ _)
                λ _. seq _ _ (call-Follows _) λ _. after_merge-Follows id _ _)).along
          s;
  }

  integrate-Follows : (id : String) → Obeys Follows (integrate w id)
  unfolding integrate
  integrate-Follows id = record {
    along = λ s. pick s w.remote _ _ (Follows-preorder.still s) λ r.
        pick s (find id s.tasks) _ _ (Follows-preorder.still s)
          λ t. (choose _ _ _ (merge_remotely-Follows r id _) (ret false)).along s;
  }

  fail_fix-Follows : Obeys Follows (fail_fix w)
  unfolding fail_fix
  fail_fix-Follows = seq _ _ (update_graph_status-Follows w.env _ _ _) λ _.
      seq _ _ (emit-Follows _ _)
        λ _. seq _ _ (Steady-Follows _ (notify_parent-Steady w)) λ next. ret (fix_failed next)

  resume_yield-Follows :
      (newly : List String) (id : String) (y : YieldContext)
      → Obeys Follows (resume_yield w newly id y)
  unfolding resume_yield
  resume_yield-Follows newly id y = seq _ _ (resolve_yield-Follows id) λ o.
      choose (is_some o) _ _
        (seq _ _ (update_task_fields-Follows id none no_patch) λ _.
          seq _ _ (update_task_status-Follows id TaskStatus.ready no_patch) λ _.
            seq _ _
              (modify-Follows (λ s. record s { resume_notes = id ∷ s.resume_notes }) (λ _. refl))
              λ _.
                seq _ _
                  (choose w.env.has_escalation _ _ (call-Follows (cancel_escalation id)) (ret tt))
                  λ _. ret (newly ++ id ∷ []))
        (ret newly)

  resume_waiter-Follows :
      (id : String) (newly : List String) (e : String × YieldContext)
      → Obeys Follows (resume_waiter w id newly e)
  unfolding resume_waiter
  resume_waiter-Follows id newly (waiting, y) = record {
    along = λ s. (choose _ _ _ (resume_yield-Follows newly waiting y) (ret newly)).along s;
  }

  resume_waiters-Follows :
      (id : String) (newly : List String) → Obeys Follows (resume_waiters w id newly)
  unfolding resume_waiters
  resume_waiters-Follows id newly = record {
    along = λ s.
        (choose w.env.has_yield_manager _ _
            (loop (resume_waiter w id) newly _ (resume_waiter-Follows id)) (ret newly)).along
          s;
  }

  finish-Follows : (g : Option TaskGraph) (newly : List String) → Obeys Follows (finish w g newly)
  unfolding finish
  finish-Follows g newly = record {
    along = λ s.
        (seq _ _ (choose _ _ _ (ret tt) (dispatch_ready_tasks-Follows w.env _ _ true))
            λ _. seq _ _ (check_graph_completion-Follows w _) λ next. ret _).along
          s;
  }

  ready_both-Follows :
      (o : Option String) (newly : List String)
      → Obeys Follows (elim o as (λ x. Action (List String)) [
        | none ↦ pure newly
        | some orig ↦ ready_dependents_of orig newly
      ])
  ready_both-Follows none newly = ret newly
  ready_both-Follows (some orig) newly = ready_dependents_of-Follows orig newly

  release_waiting-Follows :
      (id : String) (o : Option String) (g : Option TaskGraph)
      → Obeys Follows (release_waiting w id o g)
  unfolding release_waiting
  release_waiting-Follows id o g = seq _ _ (emit-Follows _ _) λ _.
      seq _ _ (ready_dependents_of-Follows id []) λ newly.
        seq _ _ (ready_both-Follows o newly) λ newly'.
          seq _ _ (resume_waiters-Follows id newly') λ all_newly. finish-Follows g all_newly

  -- What follows the write of the status.
  pub after_write-Follows :
      (id : String) (g : Option TaskGraph)
      → Obeys Follows (
          after_coordinator w id >>= λ o.
          integrate w id >>= λ b. if b then fail_fix w else release_waiting w id o g)
  after_write-Follows id g = seq _ _ (after_coordinator-Follows id) λ o.
      seq _ _ (integrate-Follows id)
        λ b. choose b _ _ fail_fix-Follows (release_waiting-Follows id o g)

  complete_live-Follows :
      (id session : String) (code : ℕ) (g : Option TaskGraph)
      → Obeys Follows (complete_live w id session code g)
  unfolding complete_live
  complete_live-Follows id session code g =
      seq _ _ (update_task_status-Follows id TaskStatus.completed _) λ _.
        seq _ _ (modify-Follows (λ s. record s { completed = set_add id s.completed }) (λ _. refl))
          λ _. after_write-Follows id g

  pub on_task_completed-Follows :
      (id session : String) (code : ℕ) → Obeys Follows (on_task_completed w id session code)
  unfolding on_task_completed
  on_task_completed-Follows id session code = record {
    along = λ s.
        pick s (merged_into s.graph) _ _
          ((choose (has_ended w (find id s.tasks)) _ _ (ret ignored)
              (complete_live-Follows id session code s.graph)).along
            s)
          (λ target. Follows-preorder.still s);
  }
