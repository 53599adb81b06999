-- ===== src/Completion/Plain.antt =====
-- The end of a graph without acceptance criteria in src/task-graph.ts: when it promotes.
use the_bureau.Completion.{complete, promotion_of}
use the_bureau.Graph.Cancel.Verdicts.{update_graph_status-IsMarked}
use the_bureau.Rework.{try_claim_resolution}
use the_bureau.Completion.Promotion.{
  notify_parent-Steady, notify_parent_keeps, promote_failed-ends, promotion_of-own,
}
use the_bureau.Graph.Cancel.{is_terminal_graph, update_graph_status}
use the_bureau.Completion.{
  Wiring, attempt_of, close_graph, complete_claimed, is_awaited, promote_integration_if_pod,
  promotion_fails, is_promoted, promote, promote_failed,
}
use the_bureau.Graph.Store.{Store, emit, ◌>>=◌, Action, Result, and_then, call, pure, raise, return}
use the_bureau.Completion.Validated.{Outcome, given, later}
use the_bureau.Graph.Store.Steady.{IsCalm-emit, Steady, Steady-preorder, is_promotion, promotions}
use the_bureau.Prelude.{
  ◌==◌, Bool-cases, List, any, arith, if◌then◌else◌, false, inl, inr, none, refl, some, true, ◌∙◌,
  ◌∷◌, ◌≡◌, Option-cases,
}
use the_bureau.Graph.Types.{
  EventType, GraphStatus, TaskGraph, TaskNode, event, graph_awaiting_children, graph_completed,
  promote_integration, worktree_merged,
}

wrapped :
    {A : Type 0} (P : Store → Type 0) (m : Action A) (s : Store) → P (m s).1 → P ((m >>= pure) s).1
wrapped {A} P m s = go (m s).0 (m s).1
  where
    go : (x : Result A) (t : Store) → P t → P (and_then x pure t).1
    go (return a) t h = h
    go (raise e) t h = h

module _ (w : Wiring) where
  -- A close leaves the graph ended, and promotes nothing.
  close_graph-ends :
      (status : GraphStatus) (type : EventType) (s : Store) (g : TaskGraph)
      → is_terminal_graph status ≡ true
      → s.graph ≡ some g
      → (g' : TaskGraph) × ((close_graph w status type s).1.graph ≡ some g')
        × (is_terminal_graph g'.status ≡ true)
        × Steady s (close_graph w status type s).1
  unfolding close_graph emit promotions is_promotion
  close_graph-ends status type s g over has =
      let m = update_graph_status-IsMarked w.env status none none s g has in
      let s2 = (update_graph_status w.env status none none s).1 in
      let s3 : Store = record s2 { effects = event type none ∷ s2.effects } in
      let last = (notify_parent-Steady w).along s3 in
      (
        m.record_now,
        rw (m.returns) (notify_parent_keeps w s3 m.record_now m.stored),
        rw (m.marked) over,
        rw (m.returns) (record {
          same_tasks = last.same_tasks ∙ m.steady.same_tasks;
          stays = λ h. last.stays (m.steady.stays h);
          same_promotions = omega (arith, last.same_promotions, m.steady.same_promotions);
        }),
      )

  complete_claimed-outcome :
      (g : TaskGraph) (tasks : List TaskNode) (s : Store) (now : TaskGraph)
      → s.graph ≡ some now
      → Outcome (g.is_rework_fix_child ≡ false) s (complete_claimed w g tasks s).1
  unfolding complete_claimed promotion_fails promote_integration_if_pod promote emit call promotions
      is_promotion is_terminal_graph
  complete_claimed-outcome g tasks s now has = elim (Option-cases (promotion_of w g tasks)) [
    | inl nothing ↦
        let c = close_graph-ends GraphStatus.completed graph_completed s now refl has in
        rw (nothing, complete_claimed, promote_integration_if_pod, promotion_fails) (inl (c.3))
    | inr (m, there) ↦ elim (Bool-cases (is_promoted m)) [
      | inl good ↦
          let s1 : Store = record s {
            effects =
                event worktree_merged (some "__integration__") ∷ promote_integration ∷ s.effects;
          } in
          let c = close_graph-ends GraphStatus.completed graph_completed s1 now refl has in
          rw (there, good, complete_claimed, promote_integration_if_pod, promotion_fails)
            (inr (
              promotion_of-own w g tasks m there,
              record {
                graph = c.0;
                stored = c.1;
                ended = c.2;
                once = omega (arith, c.3.same_promotions);
                same_tasks = c.3.same_tasks;
              },
            ))
      | inr bad ↦
          let s1 : Store = record s { effects = promote_integration ∷ s.effects } in
          let f = promote_failed-ends w s1 now has in
          rw (there, bad, complete_claimed, promote_integration_if_pod, promotion_fails)
            (wrapped (Outcome (g.is_rework_fix_child ≡ false) s) (promote_failed w) s1 (
              inr (
                promotion_of-own w g tasks m there,
                record {
                  graph = f.0;
                  stored = f.1;
                  ended = f.2;
                  once = omega (arith, f.3.same_promotions);
                  same_tasks = f.3.same_tasks;
                },
              )))
    ]
  ]

  pub complete-outcome :
      (g : TaskGraph) (tasks : List TaskNode) (s : Store) (now : TaskGraph)
      → s.graph ≡ some now
      → Outcome
          ((any (λ id. is_awaited (w.graphs id)) g.child_graph_ids ≡ false)
            × (s.completion_locks (attempt_of g) ≡ false)
            × (g.is_rework_fix_child ≡ false))
          s
          (complete w g tasks s).1
  unfolding complete try_claim_resolution emit
  complete-outcome g tasks s now has =
      elim (Bool-cases (any (λ id. is_awaited (w.graphs id)) g.child_graph_ids)) [
        | inl awaited ↦
            rw (awaited, complete) (inl ((IsCalm-emit graph_awaiting_children none).steady.along s))
        | inr over ↦ elim (Bool-cases (s.completion_locks (attempt_of g))) [
          | inl taken ↦ rw (over, taken, complete) (inl (Steady-preorder.still s))
          | inr open_lock ↦
              let s1 : Store = record s {
                completion_locks = λ n. if n == attempt_of g then true else s.completion_locks n;
              } in
              let to_s1 : Steady s s1 = record {
                same_tasks = refl;
                stays = λ h. h;
                same_promotions = refl;
              } in
              rw (over, open_lock, complete)
                (later _ s s1 _ to_s1 (
                  given _ _ s1 _ (λ own. (refl, refl, own))
                    (complete_claimed-outcome g tasks s1 now has)))
        ]
      ]
