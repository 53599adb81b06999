-- ===== src/Completion/Gates.antt =====
-- When a completion check of src/task-graph.ts promotes the work of a graph.
use the_bureau.Graph.Store.{◌>>◌}
use the_bureau.Prelude.{true, false}
use the_bureau.Completion.{is_validating}
use the_bureau.Graph.Cancel.Verdicts.{update_graph_status-Steady}
use the_bureau.Graph.Cancel.{is_terminal_graph, update_graph_status}
use the_bureau.Completion.Validated.{Outcome, given}
use the_bureau.Graph.Store.Obeys.{Obeys}
use the_bureau.Completion.Promotion.{IsPromoted}
use the_bureau.Graph.Store.Steady.{IsCalm-emit, Steady, Steady-bind, Steady-preorder, Steady-pure}
use the_bureau.Graph.Types.{GraphStatus, TaskGraph, TaskNode, graph_failed}
use the_bureau.Completion.{
  Completion, Wiring, attempt_of, check_gates, check_graph_completion, check_merged, check_tasks,
  check_validating, first_reason, is_done, is_fatal, is_reworking, merges_remotely, null_graph,
  reconcile, settled,
}
use the_bureau.Graph.Store.{Action, Result, Store, all_tasks, emit, pure}
use the_bureau.Prelude.{
  ◌&&◌, ◌==◌, Bool-cases, List, Option, all, any, if◌then◌else◌, false, get_or, inl, inr, length,
  none, not, some, true, ◌≡◌, ◌⊎◌,
}
use the_bureau.Completion.Open.{Gate, IsOpen, check_graph-outcome}

-- All that holds of the store `s` where a check of it promotes, with the tasks that it was given.
pub record MayPromote (w : Wiring) (tasks : List TaskNode) (s : Store) : Type 0 where
  pub graph : TaskGraph
  pub stored : s.graph ≡ some graph
  pub live : is_terminal_graph graph.status ≡ false
  pub finished : all is_done tasks ≡ true
  pub healthy : any is_fatal tasks ≡ false
  pub merged : (any merges_remotely tasks && not (length s.pending_merges == 0)) ≡ false
  pub gate : Gate w graph s
  pub unclaimed : s.completion_locks (attempt_of graph) ≡ false
  pub own : graph.is_rework_fix_child ≡ false

module _ (w : Wiring) where
  check_merged-outcome :
      (tasks : List TaskNode) (g : TaskGraph) (s : Store)
      → s.graph ≡ some g
      → is_terminal_graph g.status ≡ false
      → all is_done tasks ≡ true
      → any is_fatal tasks ≡ false
      → Outcome (MayPromote w tasks s) s (check_merged w tasks s).1
  unfolding check_merged
  check_merged-outcome tasks g s has live over healthy =
      elim (Bool-cases (any merges_remotely tasks && not (length s.pending_merges == 0))) [
        | inl in_flight ↦ inl (rw in_flight (Steady-preorder.still s))
        | inr merged ↦ rw merged (
            given _ (MayPromote w tasks s) s _
              (λ c. record {
                graph = g;
                stored = has;
                live = live;
                finished = over;
                healthy = healthy;
                merged = merged;
                gate = c.gate;
                unclaimed = c.unclaimed;
                own = c.own;
              })
              (go s.graph has))
      ]
    where
      go :
          (o : Option TaskGraph)
          → o ≡ some g
          → Outcome
              (IsOpen w g s)
              s
              ((elim o as (λ x. Action Completion) [
                | none ↦ check_gates w null_graph tasks
                | some g ↦
                    if is_validating g.status
                    then check_validating w g tasks
                    else check_gates w g tasks
              ])
                s).1
      go o e = rw e (check_graph-outcome w g tasks s has)

  fatal-Steady :
      (tasks : List TaskNode)
      → Obeys Steady (do
        update_graph_status w.env GraphStatus.failed none (first_reason tasks)
        emit graph_failed none
        pure settled)
  fatal-Steady tasks =
      Steady-bind _ _
        (update_graph_status-Steady w.env GraphStatus.failed none (first_reason tasks))
        λ _. Steady-bind _ _ (IsCalm-emit graph_failed none).steady λ _. Steady-pure settled

  check_tasks-outcome :
      (tasks : List TaskNode) (g : TaskGraph) (s : Store)
      → s.graph ≡ some g
      → is_terminal_graph g.status ≡ false
      → Outcome (MayPromote w tasks s) s (check_tasks w tasks s).1
  unfolding check_tasks
  check_tasks-outcome tasks g s has live = elim (Bool-cases (length tasks == 0)) [
    | inl empty ↦ inl (rw empty (Steady-preorder.still s))
    | inr some_task ↦ elim (Bool-cases (all is_done tasks)) [
      | inr open_task ↦ inl (rw (some_task, open_task) (Steady-preorder.still s))
      | inl over ↦ elim (Bool-cases (any is_fatal tasks)) [
        | inl bad ↦ inl (rw (some_task, over, bad) ((fatal-Steady tasks).along s))
        | inr healthy ↦
            rw (some_task, over, healthy) (check_merged-outcome tasks g s has live over healthy)
      ]
    ]
  ]

  held_back-tasks :
      (tasks : List TaskNode) (s : Store)
      → (any merges_remotely tasks && not (length s.pending_merges == 0)) ≡ true
      → Steady s (check_tasks w tasks s).1
  unfolding check_tasks check_merged
  held_back-tasks tasks s held_up = elim (Bool-cases (length tasks == 0)) [
    | inl empty ↦ rw empty (Steady-preorder.still s)
    | inr some_task ↦ elim (Bool-cases (all is_done tasks)) [
      | inr open_task ↦ rw (some_task, open_task) (Steady-preorder.still s)
      | inl over ↦ elim (Bool-cases (any is_fatal tasks)) [
        | inl bad ↦ rw (some_task, over, bad) ((fatal-Steady tasks).along s)
        | inr healthy ↦ rw (some_task, over, healthy, held_up) (Steady-preorder.still s)
      ]
    ]
  ]

  -- A check with a merge pending promotes nothing, whether or not the graph's record is stored.
  pub held_back-Steady :
      (cached : Option (List TaskNode)) (s : Store)
      → (any merges_remotely (get_or cached (all_tasks s)) && not (length s.pending_merges == 0))
        ≡ true
      → Steady s (check_graph_completion w cached s).1
  unfolding check_graph_completion
  held_back-Steady cached s held_up = go s.graph
    where
      go :
          (o : Option TaskGraph)
          → Steady s
              (elim o as (λ x. Result Completion × Store) [
                | none ↦ check_tasks w (get_or cached (all_tasks s)) s
                | some g ↦
                    (if is_terminal_graph g.status
                        then pure settled
                        else if is_reworking g.status
                        then pure reconcile
                        else check_tasks w (get_or cached (all_tasks s)))
                      s
              ]).1
      go none = held_back-tasks (get_or cached (all_tasks s)) s held_up
      go (some g) = elim (Bool-cases (is_terminal_graph g.status)) [
        | inl ended ↦ rw ended (Steady-preorder.still s)
        | inr live ↦ elim (Bool-cases (is_reworking g.status)) [
          | inl again ↦ rw (live, again) (Steady-preorder.still s)
          | inr fresh ↦ rw (live, fresh) (held_back-tasks (get_or cached (all_tasks s)) s held_up)
        ]
      ]

  pub check_graph_completion_promotes :
      (cached : Option (List TaskNode)) (g : TaskGraph) (s : Store)
      → s.graph ≡ some g
      → Steady s (check_graph_completion w cached s).1
        ⊎ (MayPromote w (get_or cached (all_tasks s)) s
            × IsPromoted s (check_graph_completion w cached s).1)
  unfolding check_graph_completion
  check_graph_completion_promotes cached g s has = go s.graph has
    where
      go :
          (o : Option TaskGraph)
          → o ≡ some g
          → Outcome
              (MayPromote w (get_or cached (all_tasks s)) s)
              s
              (elim o as (λ x. Result Completion × Store) [
                | none ↦ check_tasks w (get_or cached (all_tasks s)) s
                | some g ↦
                    (if is_terminal_graph g.status
                        then pure settled
                        else if is_reworking g.status
                        then pure reconcile
                        else check_tasks w (get_or cached (all_tasks s)))
                      s
              ]).1
      go o e = elim (Bool-cases (is_terminal_graph g.status)) [
        | inl ended ↦ rw (e, ended) (inl (Steady-preorder.still s))
        | inr live ↦ elim (Bool-cases (is_reworking g.status)) [
          | inl again ↦ rw (e, live, again) (inl (Steady-preorder.still s))
          | inr fresh ↦
              rw (e, live, fresh) (check_tasks-outcome (get_or cached (all_tasks s)) g s has live)
        ]
      ]
