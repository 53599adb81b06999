-- ===== src/Graph/Readiness.antt =====
-- When a task may be dispatched (src/task-graph.ts: areDepsReady, areDepsMerged,
-- depsReadyAndMerged, readyDependentsOf).
pub mod Statuses
pub mod Laws
use Prim.Native.String
use the_bureau.Prelude.{
  ℕ, String, Bool, true, false, not, ◌&&◌, Option, none, some, List, [], ◌∷◌, ◌++◌, str_eq,
  contains, all, filter, length, ◌==◌, if◌then◌else◌,
}
use the_bureau.StateMachine.{TaskStatus, pending, ready, awaiting_approval, completed, same_status}
use the_bureau.Graph.Types.{TaskNode, no_patch, task_ready, task_approval_required}
use the_bureau.Graph.Store.{
  Store, Action, pure, modify, ◌>>=◌, ◌>>◌, fold_m, find, emit, update_task_status,
}

-- `sdiff(deps, completed)` is empty; a set that does not exist is empty too.
unfoldable pub are_deps_ready : Store → String → Bool
are_deps_ready s task_id =
    let deps = s.deps task_id in
    if length deps == 0 then true else length (filter (λ d. not (contains d s.completed)) deps) == 0

-- No merge of the dependency's work is in flight, and its conflict coordinator, if there is one,
-- has completed.
unfoldable pub is_merged : Store → String → Bool
is_merged s dep =
    if contains dep s.pending_merges
    then false
    else elim (find (String.◌++◌ "merge-" dep) s.tasks) [
      | none ↦ true
      | some merge_task ↦ same_status merge_task.status completed
    ]

unfoldable pub are_deps_merged : Store → String → Bool
unfolding is_merged
are_deps_merged s task_id = all (is_merged s) (s.deps task_id)

unfoldable pub deps_ready_and_merged : Store → String → Bool
unfolding are_deps_ready are_deps_merged
deps_ready_and_merged s task_id = are_deps_ready s task_id && are_deps_merged s task_id

-- `if (task && task.status === "pending")`
is_pending : Option TaskNode → Bool
is_pending none = false
is_pending (some t) = same_status t.status pending

needs_approval : Option TaskNode → Bool
needs_approval none = false
needs_approval (some t) = t.require_approval

lock_task : String → Store → Store
lock_task id s = record s { locks = λ j. if str_eq id j then true else s.locks j }

-- The branch behind the acquired lock. The list of the caller is extended before the write.
release_dependent : List String → String → Bool → Action (List String)
release_dependent newly_ready dep true = do
  update_task_status dep awaiting_approval no_patch
  emit task_approval_required (some dep)
  pure newly_ready
release_dependent newly_ready dep false = do
  update_task_status dep ready no_patch
  emit task_ready (some dep)
  pure (newly_ready ++ dep ∷ [])

-- One round of the loop of `readyDependentsOf`.
ready_dependent : List String → String → Action (List String)
unfolding is_pending needs_approval lock_task release_dependent
ready_dependent newly_ready dep s =
    (if deps_ready_and_merged s dep && is_pending (find dep s.tasks) && not (s.locks dep)
        then (modify (lock_task dep)
            >> release_dependent newly_ready dep (needs_approval (find dep s.tasks)))
        else pure newly_ready)
      s

pub ready_dependents_of : String → List String → Action (List String)
unfolding ready_dependent
ready_dependents_of of_task newly_ready s = fold_m ready_dependent newly_ready (s.rdeps of_task) s
