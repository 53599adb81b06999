-- ===== src/Completion/Criteria.antt =====
-- The acceptance criteria of a graph in src/task-graph.ts: when their evaluation promotes.
use the_bureau.Graph.Cancel.Verdicts.{update_graph_status-IsMarked, update_graph_status-Steady}
use the_bureau.Graph.Cancel.{update_graph_status}
use the_bureau.Rework.Entry.{try_claim_resolution-Steady}
use mathlib.Core.Path.{subst}
use the_bureau.Completion.Promotion.{maybe_start_rework-Steady, resolve_failed-Steady}
use the_bureau.Rework.Pin.{
  check_validation_dispatch_pin, passes, persist_validation_dispatch_head,
  capture_integration_head_for_pin,
}
use the_bureau.Completion.{
  Wiring, add_children, after_gateless, attempt_of, check_criteria, dispatch_validation,
  evaluate_criteria, fail_gateless, gate_criteria, is_reworking, mark_validation_failed, null_graph,
  passes_inline, reconcile, resolve_inline, settled,
}
use the_bureau.Graph.Store.{Store, emit, get, modify}
use the_bureau.Completion.Validated.{Outcome, given, later, resolve_passed-outcome}
use the_bureau.Graph.Store.Obeys.{Obeys, if-Obeys, option-along}
use the_bureau.Graph.Store.Steady.{
  IsCalm-emit, Steady, Steady-bind, Steady-preorder, Steady-pure, is_promotion, promotions,
}
use the_bureau.Graph.Types.{
  GraphStatus, TaskGraph, TaskNode, event, graph_validating, graph_validation_failed,
}
use the_bureau.Rework.{Entered, handed_over, refused, try_claim_resolution}
use the_bureau.Prelude.{
  ◌&&◌, ◌++◌, ◌==◌, Bool-cases, List, Option, String, arith, contains, if◌then◌else◌, false, get_or,
  inl, inr, is_some, none, refl, some, true, ◌∷◌, ◌≡◌,
}

module _ (w : Wiring) where
  mark_validation_failed-Steady : Obeys Steady (mark_validation_failed w)
  unfolding mark_validation_failed
  mark_validation_failed-Steady = record {
    along = λ s.
        let g = get_or s.graph null_graph in
        (if-Obeys Steady (is_reworking g.status && is_some g.current_round) _ _
            (Steady-pure reconcile)
            (Steady-bind _ _ (try_claim_resolution-Steady (attempt_of g)) λ claimed.
              if-Obeys Steady claimed _ _ (resolve_failed-Steady w none)
                (Steady-pure settled))).along
          s;
  }

  after_gateless-Steady : (e : Entered) → Obeys Steady (after_gateless w e)
  unfolding after_gateless
  after_gateless-Steady handed_over = Steady-pure reconcile
  after_gateless-Steady refused =
      Steady-bind _ _ (update_graph_status-Steady w.env GraphStatus.validation_failed none none)
        λ _.
          Steady-bind _ _ (IsCalm-emit graph_validation_failed none).steady λ _. Steady-pure settled

  pub fail_gateless-Steady : (g : TaskGraph) → Obeys Steady (fail_gateless w g)
  unfolding fail_gateless
  fail_gateless-Steady g = Steady-bind _ _ (try_claim_resolution-Steady (attempt_of g)) λ claimed.
      if-Obeys Steady claimed _ _
        (Steady-bind _ _ (maybe_start_rework-Steady w none none) λ e. after_gateless-Steady e)
        (Steady-pure settled)

  add_children-Steady : (s : Store) → Steady s (add_children w s)
  unfolding add_children
  add_children-Steady s = go s.graph
    where
      go :
          (o : Option TaskGraph)
          → Steady s (elim o as (λ x. Store) [
            | none ↦ s
            | some g ↦ record s {
              graph =
                  some (record g { child_graph_ids = g.child_graph_ids ++ w.validation_children });
            }
          ])
      go none = Steady-preorder.still s
      go (some g) = record { same_tasks = refl; stays = λ h. refl; same_promotions = refl }

  persist-Steady : (head : Option String) → Obeys Steady (persist_validation_dispatch_head head)
  unfolding persist_validation_dispatch_head
  persist-Steady none = record { along = Steady-preorder.still }
  persist-Steady (some head) = record {
    along = λ s.
        option-along Steady s s.graph _ _ (Steady-preorder.still s)
          λ g. record { same_tasks = refl; stays = λ h. refl; same_promotions = refl };
  }

  dispatch_validation-Steady : (g : TaskGraph) → Obeys Steady (dispatch_validation w g)
  unfolding dispatch_validation
  dispatch_validation-Steady g =
      Steady-bind get _ (record { along = Steady-preorder.still })
        λ s.
          Steady-bind (modify (add_children w)) _ (record { along = add_children-Steady })
            λ _.
              Steady-bind _ _
                (persist-Steady
                  (capture_integration_head_for_pin w.hooks s.graph_id g.destination 0))
                λ _.
                  if-Obeys Steady (passes_inline w g) _ _ (Steady-pure settled)
                    mark_validation_failed-Steady

  -- What holds where the criteria promote, which is without a graph dispatched for one of them.
  pub record IsInline (g : TaskGraph) (s : Store) : Type 0 where
    pub no_agent : contains "agent" (gate_criteria g) ≡ false
    pub no_exec : contains "exec" (gate_criteria g) ≡ false
    pub passed : passes_inline w g ≡ true
    pub unclaimed : s.completion_locks (attempt_of g) ≡ false
    pub pinned : check_validation_dispatch_pin w.hooks s.graph_id (some g) 0 ≡ passes
    pub own : g.is_rework_fix_child ≡ false

  resolve_inline-outcome :
      (g now : TaskGraph) (tasks : List TaskNode) (s : Store)
      → s.graph ≡ some now
      → Outcome
          ((s.completion_locks (attempt_of g) ≡ false)
            × (check_validation_dispatch_pin w.hooks s.graph_id (some g) 0 ≡ passes)
            × (g.is_rework_fix_child ≡ false))
          s
          (resolve_inline w g tasks s).1
  unfolding resolve_inline try_claim_resolution
  resolve_inline-outcome g now tasks s has = elim (Bool-cases (s.completion_locks (attempt_of g))) [
    | inl taken ↦ rw (taken, resolve_inline) (inl (Steady-preorder.still s))
    | inr open_lock ↦
        let s1 : Store = record s {
          completion_locks = λ n. if n == attempt_of g then true else s.completion_locks n;
        } in
        let to_s1 : Steady s s1 = record {
          same_tasks = refl;
          stays = λ h. h;
          same_promotions = refl;
        } in
        rw (open_lock, resolve_inline)
          (later _ s s1 _ to_s1 (
            given _ _ s1 _ (λ c. (refl, c.0, c.1))
              (resolve_passed-outcome w g now tasks
                (check_validation_dispatch_pin w.hooks s.graph_id (some g) 0) s1 has)))
  ]

  evaluate_criteria-outcome :
      (g now : TaskGraph) (tasks : List TaskNode) (s : Store)
      → s.graph ≡ some now
      → Outcome (IsInline g s) s (evaluate_criteria w g tasks s).1
  unfolding evaluate_criteria
  evaluate_criteria-outcome g now tasks s has =
      elim (Bool-cases (contains "agent" (gate_criteria g))) [
        | inl agent ↦ rw (agent, evaluate_criteria) (inl ((dispatch_validation-Steady g).along s))
        | inr no_agent ↦ elim (Bool-cases (contains "exec" (gate_criteria g))) [
          | inl exec ↦
              rw (no_agent, exec, evaluate_criteria) (inl ((dispatch_validation-Steady g).along s))
          | inr no_exec ↦ elim (Bool-cases (passes_inline w g)) [
            | inr red ↦
                rw (no_agent, no_exec, red, evaluate_criteria)
                  (inl (mark_validation_failed-Steady.along s))
            | inl green ↦
                rw (no_agent, no_exec, green, evaluate_criteria)
                  (given _ (IsInline g s) s _
                    (λ c. record {
                      no_agent = no_agent;
                      no_exec = no_exec;
                      passed = green;
                      unclaimed = c.0;
                      pinned = c.1;
                      own = c.2;
                    })
                    (resolve_inline-outcome g now tasks s has))
          ]
        ]
      ]

  pub check_criteria-outcome :
      (g : TaskGraph) (tasks : List TaskNode) (s : Store)
      → s.graph ≡ some g
      → Outcome (IsInline g s) s (check_criteria w g tasks s).1
  unfolding check_criteria emit promotions is_promotion
  check_criteria-outcome g tasks s has =
      let m = update_graph_status-IsMarked w.env GraphStatus.validating none none s g has in
      let s2 = (update_graph_status w.env GraphStatus.validating none none s).1 in
      let s3 : Store = record s2 { effects = event graph_validating none ∷ s2.effects } in
      let to_s3 : Steady s s3 = record {
        same_tasks = m.steady.same_tasks;
        stays = m.steady.stays;
        same_promotions = omega (arith, m.steady.same_promotions);
      } in
      rw (m.returns) (
        later _ s s3 _ to_s3 (
          given _ (IsInline g s) s3 _
            (λ c. record {
              no_agent = c.no_agent;
              no_exec = c.no_exec;
              passed = c.passed;
              unclaimed = subst (λ l. l (attempt_of g) ≡ false) (m.same_locks) (c.unclaimed);
              pinned =
                  subst (λ i. check_validation_dispatch_pin w.hooks i (some g) 0 ≡ passes)
                    (m.same_id) (c.pinned);
              own = c.own;
            })
            (evaluate_criteria-outcome g m.record_now tasks s3 m.stored)))
