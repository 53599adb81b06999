-- ===== src/Completion.antt =====
-- Whether a graph is complete (src/task-graph.ts: checkGraphCompletion, promoteIntegrationIfPod,
-- maybeStartRework, markValidationFailed). The hooks of the remote merge, the other graphs in
-- Redis, the answer of the criterion engine and the graphs declared for criteria are parameters;
-- the events of single criteria, telemetry and the pod log in a failure's detail are left out.
pub mod Facts
pub mod Promotion
pub mod Validated
pub mod Plain
pub mod Criteria
pub mod Open
pub mod Gates
pub mod Once
pub mod Statuses
pub mod Task
pub mod Reconcile
mod Tests
unfoldable pub use Facts.*
use the_bureau.Rework.Pin.{
  Verdict, capture_integration_head_for_pin, persist_validation_dispatch_head,
}
use the_bureau.Graph.Store.{◌>>=◌, Store, modify}
use text.Mathlib.Text.{starts_with}
use the_bureau.StateMachine.{TaskStatus}
use the_bureau.Graph.Env.{Env}
use the_bureau.StateMachine.{same_status}
use the_bureau.Graph.Cancel.{is_terminal_graph, update_graph_status}
use the_bureau.Rework.Pin.{
  HeadReader, check_validation_dispatch_pin, passes, pin_failure_reason, read_integration_head,
  refuses,
}
use the_bureau.Graph.Types.{
  GraphStatus, TaskGraph, TaskNode, ValidationFailure, child_completed, graph_failed,
  graph_validated, graph_validation_failed, promote_integration, worktree_merge_failed,
  worktree_merged, merged, validated, EventType, graph_awaiting_children, graph_completed,
  graph_validating,
}
use the_bureau.Rework.{
  Entered, enter_rework_round, handed_over, refused, rework_eligibility, try_claim_resolution,
}
use the_bureau.Graph.Store.{◌>>◌, Action, all_tasks, call, emit, get, pure}
use the_bureau.Prelude.{
  ◌&&◌, ◌==◌, Bool, List, Option, String, [], all, any, if◌then◌else◌, false, get_or, is_some,
  length, none, not, some, str_eq, true, ◌||◌, ℕ, ◌∷◌, ◌++◌, contains, ◌*◌,
}

module _ (w : Wiring) where
  -- The parent of a failed graph is told and checked.
  unfoldable pub notify_parent : Action Completion
  notify_parent s = elim s.graph [
    | none ↦ pure settled s
    | some g ↦
        (let parent = get_or g.parent_graph_id "" in
            if str_eq parent ""
            then pure settled
            else (call (child_completed parent) >> pure (check_parent parent)))
          s
  ]

  unfoldable pub promote_failed : Action Completion
  promote_failed = do
    emit worktree_merge_failed (some "__integration__")
    update_graph_status w.env GraphStatus.failed none none
    emit graph_failed none
    notify_parent

  unfoldable pub promote : Merging → Action Completion
  promote m = do
    call promote_integration
    if is_promoted m
        then (emit worktree_merged (some "__integration__") >> pure settled)
        else promote_failed

  -- The outcome of the promotion, if there is one to make.
  unfoldable pub promotion_of : TaskGraph → List TaskNode → Option Merging
  promotion_of g tasks = elim w.remote [
    | none ↦ none
    | some remote ↦
        if g.is_rework_fix_child
        then none
        else if not (any works_in_pod tasks)
        then none
        else some (remote.promotes g.destination)
  ]

  -- `promoteIntegrationIfPod`; it answers false where `promote_failed` is reached.
  unfoldable pub promote_integration_if_pod : TaskGraph → List TaskNode → Action Completion
  promote_integration_if_pod g tasks = elim (promotion_of g tasks) [
    | none ↦ pure settled
    | some m ↦ promote m
  ]

  -- `maybeStartRework` from a graph that is not in a round.
  unfoldable pub maybe_start_rework : Option ValidationFailure → Option String → Action Entered
  maybe_start_rework failure reason s = elim s.graph [
    | none ↦ pure refused s
    | some g ↦
        let round_reason = if is_some reason then reason else g.failure_reason in
        elim (rework_eligibility w.graphs g round_reason) [
          | none ↦ pure refused s
          | some e ↦
              (if is_reworking g.status && is_some g.current_round
                  then pure handed_over
                  else enter_rework_round w.env
                      (read_integration_head w.hooks s.graph_id g.destination 0) g failure
                      (get_or round_reason "") e.fix_role e.max_attempts)
                s
        ]
  ]

  unfoldable pub failure_of : String → ValidationFailure
  failure_of id = record { graph_id = id; at = w.env.now }

  -- The resolution of a validation of which every child has passed.
  unfoldable pub resolve_passed : TaskGraph → List TaskNode → Verdict → Action Completion
  resolve_passed g tasks (refuses reason) = do
    s ← get
    update_graph_status w.env GraphStatus.validation_failed (some (failure_of s.graph_id))
        (some (pin_failure_reason reason))
    emit graph_validation_failed none
    pure settled
  resolve_passed g tasks passes = do
    update_graph_status w.env GraphStatus.validated none none
    emit graph_validated none
    promote_integration_if_pod g tasks

  unfoldable pub after_rework : Option String → ValidationFailure → Entered → Action Completion
  after_rework reason failure handed_over = pure reconcile
  after_rework reason failure refused = do
    update_graph_status w.env GraphStatus.validation_failed (some failure) reason
    emit graph_validation_failed none
    pure settled

  -- The resolution of a validation of which a child has failed.
  unfoldable pub resolve_failed : Option String → Action Completion
  resolve_failed reason = do
    s ← get
    entered ← maybe_start_rework (some (failure_of s.graph_id)) reason
    after_rework reason (failure_of s.graph_id) entered

  unfoldable pub resolve_claimed : TaskGraph → List TaskNode → Action Completion
  resolve_claimed g tasks s = elim (first_failed w.graphs g.child_graph_ids) [
    | none ↦ resolve_passed g tasks (check_validation_dispatch_pin w.hooks s.graph_id (some g) 0) s
    | some reason ↦ resolve_failed reason s
  ]

  -- Of two checks of one attempt, the one that claims the lock resolves.
  unfoldable pub resolve : TaskGraph → List TaskNode → Action Completion
  resolve g tasks = do
    claimed ← try_claim_resolution (attempt_of g)
    if claimed then resolve_claimed g tasks else pure settled

  unfoldable pub check_validating : TaskGraph → List TaskNode → Action Completion
  check_validating g tasks =
      if length g.child_graph_ids == 0
      then pure settled
      else if any (λ id. is_awaited (w.graphs id)) g.child_graph_ids
      then pure settled
      else resolve g tasks

  -- `markValidationFailed`
  unfoldable pub mark_validation_failed : Action Completion
  mark_validation_failed s =
      let g = get_or s.graph null_graph in
      (if is_reworking g.status && is_some g.current_round then pure reconcile else (do
        claimed ← try_claim_resolution (attempt_of g)
        if claimed then resolve_failed none else pure settled))
        s

  unfoldable pub after_gateless : Entered → Action Completion
  after_gateless handed_over = pure reconcile
  after_gateless refused = do
    update_graph_status w.env GraphStatus.validation_failed none none
    emit graph_validation_failed none
    pure settled

  unfoldable pub fail_gateless : TaskGraph → Action Completion
  fail_gateless g = do
    claimed ← try_claim_resolution (attempt_of g)
    if claimed
        then (do entered ← maybe_start_rework none none; after_gateless entered)
        else pure settled

  unfoldable pub passes_inline : TaskGraph → Bool
  passes_inline g = not (any is_inline (gate_criteria g)) || w.inline_passes

  -- The graphs declared for criteria become children.
  unfoldable pub add_children : Store → Store
  add_children s = elim s.graph [
    | none ↦ s
    | some g ↦ record s {
      graph = some (record g { child_graph_ids = g.child_graph_ids ++ w.validation_children });
    }
  ]

  unfoldable pub dispatch_validation : TaskGraph → Action Completion
  dispatch_validation g = do
    s ← get
    modify add_children
    persist_validation_dispatch_head
        (capture_integration_head_for_pin w.hooks s.graph_id g.destination 0)
    if passes_inline g then pure settled else mark_validation_failed

  unfoldable pub resolve_inline : TaskGraph → List TaskNode → Action Completion
  resolve_inline g tasks = do
    claimed ← try_claim_resolution (attempt_of g)
    if claimed
        then (λ s.
            resolve_passed g tasks (check_validation_dispatch_pin w.hooks s.graph_id (some g) 0) s)
        else pure settled

  unfoldable pub evaluate_criteria : TaskGraph → List TaskNode → Action Completion
  evaluate_criteria g tasks =
      if contains "agent" (gate_criteria g)
      then dispatch_validation g
      else if contains "exec" (gate_criteria g)
      then dispatch_validation g
      else if passes_inline g
      then resolve_inline g tasks
      else mark_validation_failed

  unfoldable pub check_criteria : TaskGraph → List TaskNode → Action Completion
  check_criteria g tasks = do
    update_graph_status w.env GraphStatus.validating none none
    emit graph_validating none
    evaluate_criteria g tasks

  -- `promoteIntegrationIfPod` answers false.
  unfoldable pub promotion_fails : TaskGraph → List TaskNode → Bool
  promotion_fails g tasks = elim (promotion_of g tasks) [
    | none ↦ false
    | some m ↦ not (is_promoted m)
  ]

  unfoldable pub close_graph : GraphStatus → EventType → Action Completion
  close_graph status type = do
    update_graph_status w.env status none none
    emit type none
    notify_parent

  unfoldable pub complete_claimed : TaskGraph → List TaskNode → Action Completion
  complete_claimed g tasks = do
    next ← promote_integration_if_pod g tasks
    if promotion_fails g tasks then pure next else close_graph GraphStatus.completed graph_completed

  unfoldable pub complete : TaskGraph → List TaskNode → Action Completion
  complete g tasks =
      if any (λ id. is_awaited (w.graphs id)) g.child_graph_ids
      then (emit graph_awaiting_children none >> pure settled)
      else (do
        claimed ← try_claim_resolution (attempt_of g)
        if claimed then complete_claimed g tasks else pure settled)

  -- The gates of a graph that is not validating.
  unfoldable pub check_gates : TaskGraph → List TaskNode → Action Completion
  check_gates g tasks =
      if is_gateless g
      then fail_gateless g
      else if length (gate_criteria g) == 0
      then complete g tasks
      else check_criteria g tasks

  unfoldable pub check_merged : List TaskNode → Action Completion
  check_merged tasks s =
      (if any merges_remotely tasks && not (length s.pending_merges == 0)
          then pure settled
          else elim s.graph [
            | none ↦ check_gates null_graph tasks
            | some g ↦
                if is_validating g.status then check_validating g tasks else check_gates g tasks
          ])
        s

  unfoldable pub check_tasks : List TaskNode → Action Completion
  check_tasks tasks =
      if length tasks == 0
      then pure settled
      else if not (all is_done tasks)
      then pure settled
      else if any is_fatal tasks
      then (do
        update_graph_status w.env GraphStatus.failed none (first_reason tasks)
        emit graph_failed none
        pure settled)
      else check_merged tasks

  -- `checkGraphCompletion`
  unfoldable pub check_graph_completion : Option (List TaskNode) → Action Completion
  check_graph_completion cached s = elim s.graph [
    | none ↦ check_tasks (get_or cached (all_tasks s)) s
    | some g ↦
        (if is_terminal_graph g.status
            then pure settled
            else if is_reworking g.status
            then pure reconcile
            else check_tasks (get_or cached (all_tasks s)))
          s
  ]
