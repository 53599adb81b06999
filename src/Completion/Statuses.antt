-- ===== src/Completion/Statuses.antt =====
-- checkGraphCompletion of src/task-graph.ts leaves the tasks as they are.
use the_bureau.Completion.{complete, is_validating}
use the_bureau.Graph.Cancel.Statuses.{update_graph_status-Follows}
use the_bureau.Rework.Entry.{try_claim_resolution-Steady}
use the_bureau.Rework.{try_claim_resolution}
use the_bureau.Completion.Promotion.{notify_parent-Steady}
use the_bureau.Graph.Cancel.{is_terminal_graph}
use the_bureau.Completion.Gates.{check_graph_completion_promotes}
use the_bureau.Graph.Store.Steady.{Steady-Follows}
use the_bureau.Graph.Store.Obeys.{Obeys}
use the_bureau.Graph.Store.Follows.{
  Follows, Follows-of_same_tasks, Follows-preorder, call-Follows, choose, emit-Follows, ret, seq,
}
use the_bureau.Graph.Types.{
  EventType, GraphStatus, TaskGraph, TaskNode, graph_awaiting_children, graph_completed,
  graph_failed, promote_integration, worktree_merge_failed, worktree_merged,
}
use the_bureau.Completion.{
  Completion, Merging, Wiring, attempt_of, check_gates, check_graph_completion, check_merged,
  check_tasks, check_validating, close_graph, complete_claimed, first_reason, gate_command,
  gate_criteria, has_level, is_awaited, is_done, is_fatal, is_gateless, is_promoted, is_reworking,
  merges_remotely, notify_parent, null_graph, promote, promote_failed, promote_integration_if_pod,
  promotion_fails, promotion_of, reconcile, settled,
}
use the_bureau.Graph.Store.{Action, Result, Store, all_tasks, pure}
use the_bureau.Prelude.{
  ◌&&◌, ◌==◌, Bool-cases, List, Option, Option-cases, all, any, contains, if◌then◌else◌, get_or,
  inl, inr, length, none, not, some, ◌≡◌,
}

module _ (w : Wiring) where
  promote_failed-Follows : Obeys Follows (promote_failed w)
  unfolding promote_failed
  promote_failed-Follows =
      seq _ _ (emit-Follows worktree_merge_failed (some "__integration__")) λ _.
        seq _ _ (update_graph_status-Follows w.env GraphStatus.failed none none) λ _.
          seq _ _ (emit-Follows graph_failed none)
            λ _. Steady-Follows (notify_parent w) (notify_parent-Steady w)

  promote-Follows : (m : Merging) → Obeys Follows (promote w m)
  unfolding promote
  promote-Follows m = seq _ _ (call-Follows promote_integration) λ _.
      choose (is_promoted m) _ _
        (seq _ _ (emit-Follows worktree_merged (some "__integration__")) λ _. ret settled)
        promote_failed-Follows

  promote_if_pod-Follows :
      (g : TaskGraph) (tasks : List TaskNode) → Obeys Follows (promote_integration_if_pod w g tasks)
  unfolding promote_integration_if_pod
  promote_if_pod-Follows g tasks = elim (Option-cases (promotion_of w g tasks)) [
    | inl nothing ↦ rw (nothing, promote_integration_if_pod) (ret settled)
    | inr (m, there) ↦ rw (there, promote_integration_if_pod) (promote-Follows m)
  ]

  close_graph-Follows :
      (status : GraphStatus) (type : EventType) → Obeys Follows (close_graph w status type)
  unfolding close_graph
  close_graph-Follows status type =
      seq _ _ (update_graph_status-Follows w.env status none none) λ _.
        seq _ _ (emit-Follows type none)
          λ _. Steady-Follows (notify_parent w) (notify_parent-Steady w)

  complete-Follows : (g : TaskGraph) (tasks : List TaskNode) → Obeys Follows (complete w g tasks)
  unfolding complete complete_claimed
  complete-Follows g tasks =
      choose (any (λ id. is_awaited (w.graphs id)) g.child_graph_ids) _ _
        (seq _ _ (emit-Follows graph_awaiting_children none) λ _. ret settled)
        (seq _ _
          (Steady-Follows (try_claim_resolution (attempt_of g))
            (try_claim_resolution-Steady (attempt_of g)))
          λ claimed.
            choose claimed _ _
              (seq _ _ (promote_if_pod-Follows g tasks) λ next.
                choose (promotion_fails w g tasks) _ _ (ret next)
                  (close_graph-Follows GraphStatus.completed graph_completed))
              (ret settled))

  -- Without a record there are no criteria.
  null_graph-Follows : (tasks : List TaskNode) → Obeys Follows (check_gates w null_graph tasks)
  unfolding check_gates is_gateless gate_criteria gate_command has_level contains
  null_graph-Follows tasks = complete-Follows null_graph tasks

  missing-Follows :
      (tasks : List TaskNode) (s : Store) → s.graph ≡ none → Follows s (check_tasks w tasks s).1
  unfolding check_tasks check_merged
  missing-Follows tasks s missing = elim (Bool-cases (length tasks == 0)) [
    | inl empty ↦ rw empty (Follows-preorder.still s)
    | inr some_task ↦ elim (Bool-cases (all is_done tasks)) [
      | inr open_task ↦ rw (some_task, open_task) (Follows-preorder.still s)
      | inl over ↦ elim (Bool-cases (any is_fatal tasks)) [
        | inl bad ↦
            rw (some_task, over, bad)
              ((seq _ _
                  (update_graph_status-Follows w.env GraphStatus.failed none (first_reason tasks))
                  λ _. seq _ _ (emit-Follows graph_failed none) λ _. ret settled).along
                s)
        | inr healthy ↦
            elim (Bool-cases (any merges_remotely tasks && not (length s.pending_merges == 0))) [
              | inl in_flight ↦ rw (some_task, over, healthy, in_flight) (Follows-preorder.still s)
              | inr all_in ↦ rw (some_task, over, healthy, all_in) (go s.graph missing)
            ]
      ]
    ]
  ]
    where
      go :
          (o : Option TaskGraph)
          → o ≡ none
          → Follows s
              ((elim o as (λ x. Action Completion) [
                | none ↦ check_gates w null_graph tasks
                | some g ↦
                    if is_validating g.status
                    then check_validating w g tasks
                    else check_gates w g tasks
              ])
                s).1
      go o e = rw e ((null_graph-Follows tasks).along s)

  absent :
      (cached : Option (List TaskNode)) (s : Store)
      → s.graph ≡ none
      → Follows s (check_graph_completion w cached s).1
  unfolding check_graph_completion
  absent cached s missing = go s.graph missing
    where
      go :
          (o : Option TaskGraph)
          → o ≡ none
          → Follows s
              (elim o as (λ x. Result Completion × Store) [
                | none ↦ check_tasks w (get_or cached (all_tasks s)) s
                | some g ↦
                    (if is_terminal_graph g.status
                        then pure settled
                        else if is_reworking g.status
                        then pure reconcile
                        else check_tasks w (get_or cached (all_tasks s)))
                      s
              ]).1
      go o e = rw e (missing-Follows (get_or cached (all_tasks s)) s missing)

  pub check_graph_completion-Follows :
      (cached : Option (List TaskNode)) → Obeys Follows (check_graph_completion w cached)
  check_graph_completion-Follows cached = record {
    along = λ s. elim (Option-cases s.graph) [
      | inl missing ↦ absent cached s missing
      | inr (g, has) ↦ elim (check_graph_completion_promotes w cached g s has) [
        | inl calm ↦ Follows-of_same_tasks s _ calm.same_tasks
        | inr (may, p) ↦ Follows-of_same_tasks s _ p.same_tasks
      ]
    ];
  }
