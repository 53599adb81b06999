-- ===== src/Completion/Task.antt =====
-- What happens when a worker completes its task (src/task-graph.ts: onTaskCompleted). Telemetry,
-- the footprint kept in the graph registry, the task text of an added coordinator and the
-- best-effort deletion of remote branches are left out. Yielded tasks are gone through in the
-- order of the tasks, where the source takes them as SCAN lists their keys.
use the_bureau.Graph.Store.Follows.{branch}
use Prim.Native.String
use text.Mathlib.Text.{starts_with}
pub mod Statuses
pub mod Laws
pub mod Pending
use the_bureau.Graph.Types.{cancel_escalation}
use the_bureau.Graph.Store.{◌>>=◌}
use the_bureau.Completion.{conflict, fails, ff, merge, noop, outcome}
use the_bureau.Graph.Cancel.{update_graph_status}
use the_bureau.Graph.Retry.{resolve_yield}
use the_bureau.Graph.Readiness.{ready_dependents_of}
use the_bureau.Graph.Failure.{merged_into}
use the_bureau.Graph.Dispatch.{dispatch_ready_tasks}
use the_bureau.StateMachine.{TaskStatus, is_terminal, ready, same_status}
use the_bureau.Graph.Add.{NewTask, add_task}
use the_bureau.Graph.Types.{
  GraphStatus, TaskGraph, TaskNode, YieldContext, graph_failed, merge_conflict, merge_task,
  no_patch, resolve_after_coordinator, task_completed, worktree_merge_failed, worktree_merged,
  worktree_merging,
}
use the_bureau.Completion.{
  Completion, Merging, RemoteMerge, Wiring, check_graph_completion, conflict, merge, noop,
  notify_parent, outcome,
}
use the_bureau.Graph.Store.{
  ◌>>◌, Action, all_tasks, call, emit, find, fold_m, modify, pure, return, update_task_fields,
  update_task_status,
}
use the_bureau.Prelude.{
  ◌&&◌, ◌++◌, ◌==◌, Bool, List, Option, String, [], all, contains, if◌then◌else◌, false, filter,
  get_or, is_some, length, map, none, not, set_add, some, str_eq, suc, true, zero, ℕ, ◌∷◌,
}

-- `s.slice(0, n)` and `s.slice(n)`
unfoldable pub take_text : ℕ → String → String
take_text zero s = ""
take_text (suc n) String.[] = ""
take_text (suc n) (String.◌∷◌ c s) = String.◌∷◌ c (take_text n s)

unfoldable pub skip_text : ℕ → String → String
skip_text zero s = s
skip_text (suc n) String.[] = ""
skip_text (suc n) (String.◌∷◌ c s) = skip_text n s

unfoldable pub is_coordinator : String → Bool
is_coordinator id = starts_with id "merge-"

-- `bureau/${graphId.slice(0, 8)}/conflict-${taskId}`
unfoldable pub conflict_branch : String → String → String
conflict_branch graph_id task_id =
    String.◌++◌ "bureau/" (String.◌++◌ (take_text 8 graph_id) (String.◌++◌ "/conflict-" task_id))

-- ff, merge or noop: the work is on the integration branch.
unfoldable pub is_integrated : Merging → Bool
is_integrated (outcome ff b) = true
is_integrated (outcome merge b) = true
is_integrated (outcome noop b) = true
is_integrated _ = false

unfoldable pub is_conflict : Merging → Bool
is_conflict (outcome conflict b) = true
is_conflict _ = false

unfoldable pub branch_of : Merging → Option String
branch_of (outcome s b) = b
branch_of fails = none

unfoldable pub destination_of : Option TaskGraph → Option String
destination_of none = none
destination_of (some g) = g.destination

unfoldable pub git_branch_of : Option TaskNode → Option String
git_branch_of none = none
git_branch_of (some t) = t.git_branch

unfoldable pub add_pending : String → Action Unit
add_pending id = modify (λ s. record s { pending_merges = set_add id s.pending_merges })

unfoldable pub drop_pending : String → Action Unit
drop_pending id =
    modify (λ s. record s { pending_merges = filter (λ p. not (str_eq p id)) s.pending_merges })

-- A fix task merges into the integration branch of the graph that is reworked.
unfoldable pub fixes_parent : Option TaskGraph → Option String
fixes_parent none = none
fixes_parent (some g) =
    if g.is_rework_fix_child && not (str_eq (get_or g.parent_graph_id "") "")
    then g.parent_graph_id
    else none

unfoldable pub coordinator_for : String → String → String → NewTask
coordinator_for graph_id id resolved_on = record {
  id = String.◌++◌ "merge-" id;
  role = "merge-coordinator";
  depends_on = [];
  require_approval = false;
  max_retries = 0;
  branch = none;
  pod_mode = true;
  exec_mode = false;
  auto_added = true;
  git_base_ref = some resolved_on;
  git_branch = some resolved_on;
}

-- What `onTaskCompleted` does last and answers: the newly ready tasks and what the check of the
-- graph then does, nothing, or a call of itself on the graph into which this one was merged.
pub data Completed : Type 0 where
  redirected : String → Completed
  ignored : Completed
  fix_failed : Completion → Completed
  readied : List String → Completion → Completed

module _ (w : Wiring) where
  -- The resolved branch of a conflict is merged again; the task, if that succeeds.
  unfoldable pub reintegrate : String → Merging → Action (Option String)
  reintegrate orig m =
      if is_integrated m
      then (do drop_pending orig; emit worktree_merged (some orig); pure (some orig))
      else (do add_pending orig; emit worktree_merge_failed (some orig); pure none)

  unfoldable pub after_coordinator : String → Action (Option String)
  after_coordinator id s =
      let orig = skip_text 6 id in
      let resolved_on =
        get_or (git_branch_of (find id s.tasks)) (conflict_branch s.graph_id orig) in
      elim w.remote [
        | none ↦ pure none s
        | some r ↦ elim (find orig s.tasks) [
          | none ↦ pure none s
          | some t ↦
              (if is_coordinator id && t.pod_mode
                  then (call (resolve_after_coordinator orig)
                      >> reintegrate orig (r.resolves orig resolved_on (destination_of s.graph)))
                  else pure none)
                s
        ]
      ]

  -- A coordinator for the conflict is added; what `addTask` throws is swallowed.
  unfoldable pub add_coordinator : String → Option String → Action Unit
  add_coordinator id given_branch s = (
    return tt,
    (add_task w.env
        (coordinator_for s.graph_id id (get_or given_branch (conflict_branch s.graph_id id))) s).1,
  )

  -- The outcome of a merge; the answer is whether a fix task has met a conflict.
  unfoldable pub after_merge : String → Bool → Merging → Action Bool
  after_merge id is_fix m =
      if is_integrated m
      then (do drop_pending id; emit worktree_merged (some id); pure false)
      else if is_conflict m
      then (do
        drop_pending id
        emit merge_conflict (some id)
        if is_fix then pure true else (add_coordinator id (branch_of m) >> pure false))
      else (emit worktree_merge_failed (some id) >> pure false)

  unfoldable pub merge_remotely : RemoteMerge → String → String → Action Bool
  merge_remotely r id pushed s =
      let into = fixes_parent s.graph in
      let graph = get_or into s.graph_id in
      (do
        add_pending id
        if not r.has_merge_capability
            then (emit worktree_merge_failed (some id) >> pure false)
            else (do
              emit worktree_merging (some id)
              call (merge_task graph id)
              after_merge id (is_some into) (r.merges graph id pushed (destination_of s.graph))))
        s

  -- Pod mode: the pushed branch is merged; an empty branch name is falsy.
  unfoldable pub integrate : String → Action Bool
  integrate id s = elim w.remote [
    | none ↦ pure false s
    | some r ↦ elim (find id s.tasks) [
      | none ↦ pure false s
      | some t ↦
          (if t.pod_mode && not (str_eq (get_or t.branch "") "") && not (is_coordinator id)
              then merge_remotely r id (get_or t.branch "")
              else pure false)
            s
    ]
  ]

  unfoldable pub fail_fix : Action Completed
  fail_fix = do
    update_graph_status w.env GraphStatus.failed none (some "rework_fix_merge_conflict")
    emit graph_failed none
    next ← notify_parent w
    pure (fix_failed next)

  -- A task that yielded to this one goes on when all that it yielded to have completed.
  unfoldable pub resume_yield : List String → String → YieldContext → Action (List String)
  resume_yield newly waiting y = do
    resolved ← resolve_yield waiting
    if is_some resolved
        then (do
          update_task_fields waiting none no_patch
          update_task_status waiting TaskStatus.ready no_patch
          modify (λ s. record s { resume_notes = waiting ∷ s.resume_notes })
          if w.env.has_escalation then call (cancel_escalation waiting) else pure tt
          pure (newly ++ waiting ∷ []))
        else pure newly

  unfoldable pub resume_waiter : String → List String → String × YieldContext → Action (List String)
  resume_waiter id newly (waiting, y) s =
      (if contains id y.agents && all (λ a. contains a s.completed) y.agents
          then resume_yield newly waiting y
          else pure newly)
        s

  -- `getActiveYields`
  unfoldable pub active_yields :
      (String → Option YieldContext) → List (String × TaskNode) → List (String × YieldContext)
  active_yields yields [] = []
  active_yields yields ((id, t) ∷ ts) = elim (yields id) [
    | none ↦ active_yields yields ts
    | some y ↦ (id, y) ∷ active_yields yields ts
  ]

  unfoldable pub resume_waiters : String → List String → Action (List String)
  resume_waiters id newly s =
      (if w.env.has_yield_manager
          then fold_m (resume_waiter id) newly (active_yields s.yields s.tasks)
          else pure newly)
        s

  -- The ready tasks that a limit on concurrency had held back.
  unfoldable pub throttled : Option TaskGraph → List String → List TaskNode → List String
  throttled none newly tasks = []
  throttled (some g) newly tasks =
      if get_or g.max_concurrency 0 == 0
      then []
      else map (λ t. t.id)
          (filter (λ t. same_status t.status TaskStatus.ready && not (contains t.id newly)) tasks)

  unfoldable pub finish : Option TaskGraph → List String → Action Completed
  finish graph newly s =
      let tasks = all_tasks s in
      let queue = newly ++ throttled graph newly tasks in
      (do
        if length queue == 0 then pure tt else dispatch_ready_tasks w.env queue (some tasks) true
        next ← check_graph_completion w (some tasks)
        pure (readied queue next))
        s

  unfoldable pub release_waiting : String → Option String → Option TaskGraph → Action Completed
  release_waiting id reintegrated graph = do
    emit task_completed (some id)
    newly ← ready_dependents_of id []
    newly' ← elim reintegrated [ none ↦ pure newly | some orig ↦ ready_dependents_of orig newly ]
    all_newly ← resume_waiters id newly'
    finish graph all_newly

  unfoldable pub complete_live : String → String → ℕ → Option TaskGraph → Action Completed
  complete_live id session exit_code graph = do
    update_task_status id TaskStatus.completed (record no_patch {
      session_id = some (some session);
      exit_code = some (some exit_code);
      completed_at = some (some w.env.now);
    })
    modify (λ s. record s { completed = set_add id s.completed })
    reintegrated ← after_coordinator id
    fix_conflict ← integrate id
    if fix_conflict then fail_fix else release_waiting id reintegrated graph

  -- `existing?.status` is one of completed, canceled and failed.
  unfoldable pub has_ended : Option TaskNode → Bool
  has_ended none = false
  has_ended (some t) = is_terminal t.status

  unfoldable pub on_task_completed : String → String → ℕ → Action Completed
  on_task_completed id session exit_code s = elim (merged_into s.graph) [
    | some target ↦ pure (redirected target) s
    | none ↦
        (if has_ended (find id s.tasks)
            then pure ignored
            else complete_live id session exit_code s.graph)
          s
  ]
