-- ===== src/Completion/Reconcile/Laws.antt =====
-- When the reconciler of src/task-graph.ts promotes.
use the_bureau.Completion.Reconcile.Scanned.{has_passed, scan_children-passed}
use the_bureau.Graph.Store.Follows.{Follows, Follows-of_same_tasks}
use the_bureau.Rework.{try_claim_resolution}
use the_bureau.Completion.{is_reworking, resolve_passed, settled}
use the_bureau.FixIntegrity.{evaluate_fix_integrity}
use the_bureau.Completion.Reconcile.Steps.{
  advance-Steady, before_revalidation-Steady, end_round-Steady, resolve_rework_terminal-Steady,
}
use the_bureau.Graph.Store.Steady.{Steady, Steady-bind, Steady-preorder, Steady-pure}
use the_bureau.Graph.Types.{Round, TaskGraph}
use the_bureau.Completion.Reconcile.{
  Reconciled, Reconciler, Scan, after_revalidation, child_has_failed, child_is_over, empty_scan,
  fix_child, promote_round, reconcile_round, resolve_round, ended_as, resume_rework_round,
  scan_children, on_hold,
}
use the_bureau.Completion.Validated.{Outcome, given, later, resolve_passed-outcome}
use the_bureau.Completion.Promotion.{IsPromoted}
use the_bureau.Graph.Store.{◌>>=◌, Action, Result, Store, all_tasks, and_then, pure, raise, return}
use the_bureau.Prelude.{
  ◌==◌, Bool-cases, Option, Option-cases, if◌then◌else◌, false, inl, inr, length, none, not, refl,
  some, true, ◌≡◌, ◌⊎◌, all,
}
use the_bureau.Rework.Pin.{Verdict, check_head_pin_for_promote, passes, refuses}

-- All that holds of the store `s` where the reconciler promotes.
pub record MayAdvance (r : Reconciler) (s : Store) : Type 0 where
  pub graph : TaskGraph
  pub round : Round
  pub stored : s.graph ≡ some graph
  pub current : graph.current_round ≡ some round
  pub reworking : is_reworking graph.status ≡ true
  pub fix : TaskGraph
  pub fixed : fix_child r.wiring.graphs round.attempt graph.child_graph_ids ≡ some fix
  pub over : child_is_over fix.status ≡ true
  pub validated : (length round.validation_child_ids == 0) ≡ false
  pub green : all (λ id. has_passed (r.wiring.graphs id)) round.validation_child_ids ≡ true
  pub unclaimed : s.completion_locks round.attempt ≡ false
  pub honest : evaluate_fix_integrity r.patterns r.failed_coverage r.exec_criteria r.diff ≡ none
  pub pinned : check_head_pin_for_promote r.wiring.hooks s.graph_id graph round 0 ≡ passes
  pub own : graph.is_rework_fix_child ≡ false

-- A last step that only wraps the result leaves the store.
wrap-along :
    {A B : Type 0} (C : Type 0) (m : Action A) (f : A → B) (s : Store)
    → Outcome C s (m s).1
    → Outcome C s ((m >>= λ a. pure (f a)) s).1
wrap-along {A} {B} C m f s = go (m s).0 (m s).1
  where
    go : (x : Result A) (t : Store) → Outcome C s t → Outcome C s (and_then x (λ a. pure (f a)) t).1
    go (return a) t h = h
    go (raise e) t h = h

module _ (r : Reconciler) where
  promote_round-outcome :
      (g : TaskGraph) (round : Round) (v : Verdict) (s : Store)
      → s.graph ≡ some g
      → Outcome ((v ≡ passes) × (g.is_rework_fix_child ≡ false)) s (promote_round r g round v s).1
  unfolding promote_round
  promote_round-outcome g round (refuses reason) s has = inl (
      (Steady-bind _ _ (resolve_rework_terminal-Steady r round _ _)
          λ _. Steady-pure (ended_as settled)).along
        s)
  promote_round-outcome g round passes s has =
      wrap-along _ (resolve_passed r.wiring g (all_tasks s) passes) ended_as s
        (resolve_passed-outcome r.wiring g g (all_tasks s) passes s has)

  resolve_round-outcome :
      (g : TaskGraph) (round : Round) (scan : Scan) (s : Store)
      → s.graph ≡ some g
      → Outcome
          ((scan.all_passed ≡ true)
            × (evaluate_fix_integrity r.patterns r.failed_coverage r.exec_criteria r.diff ≡ none)
            × (check_head_pin_for_promote r.wiring.hooks s.graph_id g round 0 ≡ passes)
            × (g.is_rework_fix_child ≡ false))
          s
          (resolve_round r g round scan s).1
  unfolding resolve_round
  resolve_round-outcome g round scan s has = elim (Bool-cases scan.all_passed) [
    | inr red ↦ rw red (inl ((advance-Steady r g round scan.reason).along s))
    | inl green ↦
        elim (Option-cases
          (evaluate_fix_integrity r.patterns r.failed_coverage r.exec_criteria r.diff)) [
            | inr (reason, gamed) ↦ rw (green, gamed) (inl ((end_round-Steady r round).along s))
            | inl honest ↦
                rw (green, honest)
                  (given _ _ s _ (λ c. (refl, refl, c.0, c.1))
                    (promote_round-outcome g round
                      (check_head_pin_for_promote r.wiring.hooks s.graph_id g round 0) s has))
          ]
  ]

  after_revalidation-outcome :
      (g : TaskGraph) (round : Round) (fix : TaskGraph) (s : Store)
      → s.graph ≡ some g
      → g.current_round ≡ some round
      → is_reworking g.status ≡ true
      → fix_child r.wiring.graphs round.attempt g.child_graph_ids ≡ some fix
      → child_is_over fix.status ≡ true
      → (length round.validation_child_ids == 0) ≡ false
      → Outcome (MayAdvance r s) s (after_revalidation r g round s).1
  unfolding after_revalidation try_claim_resolution scan_children
  after_revalidation-outcome g round fix s has current reworking fixed over validated =
      let scan = scan_children r.wiring.graphs round.validation_child_ids empty_scan in
      elim (Bool-cases scan.any_running) [
        | inl busy ↦ rw busy (inl (Steady-preorder.still s))
        | inr done_all ↦ elim (Bool-cases (s.completion_locks round.attempt)) [
          | inl taken ↦ rw (done_all, taken) (inl (Steady-preorder.still s))
          | inr open_lock ↦
              let s1 : Store = record s {
                completion_locks = λ n. if n == round.attempt then true else s.completion_locks n;
              } in
              let to_s1 : Steady s s1 = record {
                same_tasks = refl;
                stays = λ h. h;
                same_promotions = refl;
              } in
              rw (done_all, open_lock)
                (later _ s s1 _ to_s1 (
                  given _ (MayAdvance r s) s1 _
                    (λ c. record {
                      graph = g;
                      round = round;
                      stored = has;
                      current = current;
                      reworking = reworking;
                      fix = fix;
                      fixed = fixed;
                      over = over;
                      validated = validated;
                      green =
                          (scan_children-passed r.wiring.graphs round.validation_child_ids
                            empty_scan c.0 done_all).0;
                      unclaimed = open_lock;
                      honest = c.1;
                      pinned = c.2;
                      own = c.3;
                    })
                    (resolve_round-outcome g round scan s1 has)))
        ]
      ]

  reconcile_round-outcome :
      (g : TaskGraph) (round : Round) (s : Store)
      → s.graph ≡ some g
      → g.current_round ≡ some round
      → is_reworking g.status ≡ true
      → Outcome (MayAdvance r s) s (reconcile_round r g round s).1
  unfolding reconcile_round
  reconcile_round-outcome g round s has current reworking =
      elim (Option-cases (fix_child r.wiring.graphs round.attempt g.child_graph_ids)) [
        | inl missing ↦ rw (missing, reconcile_round) (inl (Steady-preorder.still s))
        | inr (child, found) ↦ elim (Bool-cases (child_is_over child.status)) [
          | inr open_child ↦ rw (found, reconcile_round, open_child) (inl (Steady-preorder.still s))
          | inl over ↦ elim (Bool-cases (length round.validation_child_ids == 0)) [
            | inl first ↦
                rw (found, reconcile_round, over, first)
                  (inl (
                    (before_revalidation-Steady r g round (child_has_failed child.status)).along s))
            | inr again ↦
                rw (found, reconcile_round, over, again)
                  (after_revalidation-outcome g round child s has current reworking found over
                    again)
          ]
        ]
      ]

  -- A run of the reconciler either leaves the number of promotions and the tasks as they are, or
  -- it promotes once and the graph has then ended; and it promotes only a graph under rework whose
  -- fix child of the round is over, and whose validation children of the round, one at least, are
  -- all there, over and not failed, with the lock of the attempt not taken before, the guard on the
  -- fix without an objection, the pin of the head passed, and which is no fix child itself.
  pub resume_rework_round_promotes :
      (s : Store)
      → Steady s (resume_rework_round r s).1
        ⊎ (MayAdvance r s × IsPromoted s (resume_rework_round r s).1)
  unfolding resume_rework_round
  resume_rework_round_promotes s = go s.graph refl
    where
      go :
          (o : Option TaskGraph)
          → s.graph ≡ o
          → Outcome
              (MayAdvance r s)
              s
              (elim o as (λ x. Result Reconciled × Store) [
                | none ↦ pure on_hold s
                | some g ↦
                    (if not (is_reworking g.status) then pure on_hold else elim g.current_round [
                      | none ↦ pure on_hold
                      | some round ↦ reconcile_round r g round
                    ])
                      s
              ]).1
      go none has = inl (Steady-preorder.still s)
      go (some g) has = elim (Bool-cases (is_reworking g.status)) [
        | inr other ↦ rw other (inl (Steady-preorder.still s))
        | inl reworking ↦ elim (Option-cases g.current_round) [
          | inl idle ↦ rw (reworking, idle) (inl (Steady-preorder.still s))
          | inr (round, current) ↦
              rw (reworking, current) (reconcile_round-outcome g round s has current reworking)
        ]
      ]

  pub resume_rework_round-Follows : (s : Store) → Follows s (resume_rework_round r s).1
  resume_rework_round-Follows s =
      Follows-of_same_tasks s (resume_rework_round r s).1 (elim (resume_rework_round_promotes s) [
        | inl calm ↦ calm.same_tasks
        | inr (may, p) ↦ p.same_tasks
      ])
