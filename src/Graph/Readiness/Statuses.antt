-- ===== src/Graph/Readiness/Statuses.antt =====
-- Status moves of the release of dependents.
use the_bureau.Graph.Store.{find}
use the_bureau.Prelude.{String, Bool, true, false, List, [], ◌∷◌, ◌++◌, refl, some, ◌&&◌, not}
use the_bureau.StateMachine.{ready, awaiting_approval}
use the_bureau.Graph.Types.{no_patch, task_ready, task_approval_required}
use the_bureau.Graph.Store.Obeys.{Obeys}
use the_bureau.Graph.Store.Follows.{
  Follows, ret, seq, loop, choose, emit-Follows, modify-Follows, update_task_status-Follows,
}
use the_bureau.Graph.Readiness.{
  lock_task, release_dependent, ready_dependent, ready_dependents_of, deps_ready_and_merged,
  is_pending, needs_approval,
}

release_dependent-Follows :
    (newly : List String) (dep : String) (b : Bool) → Obeys Follows (release_dependent newly dep b)
unfolding release_dependent
release_dependent-Follows newly dep true =
    seq _ _ (update_task_status-Follows dep awaiting_approval no_patch)
      λ _. seq _ _ (emit-Follows task_approval_required (some dep)) λ _. ret newly
release_dependent-Follows newly dep false =
    seq _ _ (update_task_status-Follows dep ready no_patch)
      λ _. seq _ _ (emit-Follows task_ready (some dep)) λ _. ret (newly ++ dep ∷ [])

ready_dependent-Follows :
    (newly : List String) (dep : String) → Obeys Follows (ready_dependent newly dep)
unfolding ready_dependent
ready_dependent-Follows newly dep = record {
  along = λ s.
      (choose (deps_ready_and_merged s dep && is_pending (find dep s.tasks) && not (s.locks dep)) _
          _
          (seq _ _ (modify-Follows (lock_task dep) (λ _. refl))
            λ _. release_dependent-Follows newly dep (needs_approval (find dep s.tasks)))
          (ret newly)).along
        s;
}

pub ready_dependents_of-Follows :
    (of_task : String) (newly : List String) → Obeys Follows (ready_dependents_of of_task newly)
unfolding ready_dependents_of
ready_dependents_of-Follows of_task newly = record {
  along = λ s. (loop _ newly (s.rdeps of_task) ready_dependent-Follows).along s;
}
