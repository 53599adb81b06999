-- ===== src/Completion/Promotion.antt =====
-- The last steps of a completion check of src/task-graph.ts: which of them promote, and to what
-- end.
use the_bureau.Graph.Cancel.Verdicts.{update_graph_status-Steady, update_graph_status-IsMarked}
use the_bureau.Graph.Cancel.{is_terminal_graph, update_graph_status}
use the_bureau.Rework.Entry.{enter_rework_round-Steady}
use the_bureau.Rework.Pin.{refuses}
use the_bureau.Completion.{
  Wiring, after_rework, failure_of, is_reworking, maybe_start_rework, notify_parent, reconcile,
  resolve_failed, resolve_passed, settled, Merging, is_promoted, promote, promote_failed,
  promote_integration_if_pod, promotion_of,
}
use the_bureau.Graph.Store.{Store, get, call, emit}
use the_bureau.Graph.Store.Obeys.{Obeys, if-Obeys, option-along}
use the_bureau.Graph.Store.Steady.{
  IsCalm-call, IsCalm-emit, Steady, Steady-bind, Steady-preorder, Steady-pure, is_promotion,
  promotions,
}
use the_bureau.Graph.Types.{
  GraphStatus, TaskGraph, TaskNode, ValidationFailure, child_completed, graph_validation_failed,
  promote_integration, event, graph_failed, worktree_merge_failed,
}
use the_bureau.Rework.{Entered, handed_over, refused, rework_eligibility}
use the_bureau.Prelude.{
  ◌&&◌, ◌+◌, List, Option, String, if◌then◌else◌, false, get_or, is_some, none, refl, some, str_eq,
  true, ◌∷◌, ◌≡◌, Bool-cases, Option-cases, arith, inl, inr, ◌⊎◌, ◌∙◌,
}

-- One promotion more, of a graph that has ended.
pub record IsPromoted (before after : Store) : Type 0 where
  pub graph : TaskGraph
  pub stored : after.graph ≡ some graph
  pub ended : is_terminal_graph graph.status ≡ true
  pub once : promotions after.effects ≡ promotions before.effects + 1
  pub same_tasks : after.tasks ≡ before.tasks

module _ (w : Wiring) where
  pub notify_parent-Steady : Obeys Steady (notify_parent w)
  unfolding notify_parent is_promotion
  notify_parent-Steady = record {
    along = λ s.
        option-along Steady s s.graph _ _
          (record { same_tasks = refl; stays = λ h. h; same_promotions = refl })
          λ g.
            (if-Obeys Steady (str_eq (get_or g.parent_graph_id "") "") _ _ (Steady-pure settled) (
                Steady-bind _ _
                  (IsCalm-call (child_completed (get_or g.parent_graph_id "")) refl).steady
                  λ _. Steady-pure _)).along
              s;
  }

  after_rework-Steady :
      (reason : Option String) (f : ValidationFailure) (e : Entered)
      → Obeys Steady (after_rework w reason f e)
  unfolding after_rework
  after_rework-Steady reason f handed_over = Steady-pure reconcile
  after_rework-Steady reason f refused =
      Steady-bind _ _
        (update_graph_status-Steady w.env GraphStatus.validation_failed (some f) reason)
        λ _.
          Steady-bind _ _ (IsCalm-emit graph_validation_failed none).steady λ _. Steady-pure settled

  pub maybe_start_rework-Steady :
      (f : Option ValidationFailure) (reason : Option String)
      → Obeys Steady (maybe_start_rework w f reason)
  unfolding maybe_start_rework
  maybe_start_rework-Steady f reason = record {
    along = λ s.
        option-along Steady s s.graph _ _
          (record { same_tasks = refl; stays = λ h. h; same_promotions = refl })
          λ g.
            option-along Steady s
              (rework_eligibility w.graphs g (if is_some reason then reason else g.failure_reason))
              _ _ (record { same_tasks = refl; stays = λ h. h; same_promotions = refl })
              λ e.
                (if-Obeys Steady (is_reworking g.status && is_some g.current_round) _ _
                    (Steady-pure handed_over)
                    (enter_rework_round-Steady w.env _ g f _ e.fix_role e.max_attempts)).along
                  s;
  }

  pub resolve_failed-Steady : (reason : Option String) → Obeys Steady (resolve_failed w reason)
  unfolding resolve_failed
  resolve_failed-Steady reason =
      Steady-bind get _ (record { along = Steady-preorder.still })
        λ s.
          Steady-bind _ _ (maybe_start_rework-Steady (some (failure_of w s.graph_id)) reason)
            λ entered. after_rework-Steady reason (failure_of w s.graph_id) entered

  pub resolve_refused-Steady :
      (g : TaskGraph) (tasks : List TaskNode) (reason : String)
      → Obeys Steady (resolve_passed w g tasks (refuses reason))
  unfolding resolve_passed
  resolve_refused-Steady g tasks reason =
      Steady-bind get _ (record { along = Steady-preorder.still })
        λ s. Steady-bind _ _ (update_graph_status-Steady w.env _ _ _) λ _.
          Steady-bind _ _ (IsCalm-emit graph_validation_failed none).steady λ _. Steady-pure settled

  pub notify_parent_keeps :
      (s : Store) (g : TaskGraph) → s.graph ≡ some g → (notify_parent w s).1.graph ≡ some g
  unfolding notify_parent call
  notify_parent_keeps s g has = elim (Bool-cases (str_eq (get_or g.parent_graph_id "") "")) [
    | inl alone ↦ rw (has, alone) refl
    | inr child ↦ rw (has, child) refl
  ]

  -- A failed promotion leaves the graph failed.
  pub promote_failed-ends :
      (s : Store) (g : TaskGraph)
      → s.graph ≡ some g
      → (g' : TaskGraph) × ((promote_failed w s).1.graph ≡ some g')
        × (is_terminal_graph g'.status ≡ true)
        × Steady s (promote_failed w s).1
  unfolding promote_failed emit promotions is_promotion is_terminal_graph
  promote_failed-ends s g has =
      let s1 : Store = record s {
        effects = event worktree_merge_failed (some "__integration__") ∷ s.effects;
      } in
      let m = update_graph_status-IsMarked w.env GraphStatus.failed none none s1 g has in
      let s2 = (update_graph_status w.env GraphStatus.failed none none s1).1 in
      let s3 : Store = record s2 { effects = event graph_failed none ∷ s2.effects } in
      let last = notify_parent-Steady.along s3 in
      (
        m.record_now,
        rw (m.returns) (notify_parent_keeps s3 m.record_now m.stored),
        rw (m.marked) refl,
        rw (m.returns) (record {
          same_tasks = last.same_tasks ∙ m.steady.same_tasks;
          stays = λ h. last.stays (m.steady.stays h);
          same_promotions = omega (arith, last.same_promotions, m.steady.same_promotions);
        }),
      )

  promote-IsPromoted :
      (m : Merging) (s : Store) (g : TaskGraph)
      → s.graph ≡ some g
      → is_terminal_graph g.status ≡ true
      → IsPromoted s (promote w m s).1
  unfolding promote emit call promotions is_promotion
  promote-IsPromoted m s g has ended = elim (Bool-cases (is_promoted m)) [
    | inl good ↦
        rw good
          (record { graph = g; stored = has; ended = ended; once = omega arith; same_tasks = refl })
    | inr bad ↦
        let s1 : Store = record s { effects = promote_integration ∷ s.effects } in
        let f = promote_failed-ends s1 g has in
        rw bad (record {
          graph = f.0;
          stored = f.1;
          ended = f.2;
          once = omega (arith, f.3.same_promotions);
          same_tasks = f.3.same_tasks;
        })
  ]

  -- A fix child has nothing to promote.
  pub promotion_of-own :
      (g : TaskGraph) (tasks : List TaskNode) (m : Merging)
      → promotion_of w g tasks ≡ some m
      → g.is_rework_fix_child ≡ false
  unfolding promotion_of
  promotion_of-own g tasks m h = elim (Bool-cases g.is_rework_fix_child) [
    | inr own ↦ own
    | inl child ↦ elim (Option-cases w.remote) [
      | inl missing ↦ absurd (cc (rw (missing, promotion_of) at h))
      | inr (remote, here) ↦ absurd (cc (rw (here, child, promotion_of) at h))
    ]
  ]

  pub promote_if_pod-outcome :
      (g g' : TaskGraph) (tasks : List TaskNode) (s : Store)
      → s.graph ≡ some g'
      → is_terminal_graph g'.status ≡ true
      → Steady s (promote_integration_if_pod w g tasks s).1
        ⊎ ((g.is_rework_fix_child ≡ false)
            × IsPromoted s (promote_integration_if_pod w g tasks s).1)
  unfolding promote_integration_if_pod
  promote_if_pod-outcome g g' tasks s has ended = elim (Option-cases (promotion_of w g tasks)) [
    | inl nothing ↦ inl (rw (nothing, promote_integration_if_pod) (Steady-preorder.still s))
    | inr (m, there) ↦ inr (
      promotion_of-own g tasks m there,
      rw (there, promote_integration_if_pod) (promote-IsPromoted m s g' has ended),
    )
  ]
