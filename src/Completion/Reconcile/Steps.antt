-- ===== src/Completion/Reconcile/Steps.antt =====
-- The steps of the reconciler of src/task-graph.ts that do not promote.
use the_bureau.Graph.Cancel.Verdicts.{update_graph_status-Steady}
use the_bureau.Rework.Entry.{enter_rework_round-Steady, try_claim_resolution-Steady}
use the_bureau.Graph.Types.{Round, TaskGraph, ValidationFailure, graph_validation_failed}
use the_bureau.Completion.Reconcile.{
  Reconciler, advance, advance_entered, advanced, before_revalidation, claim_end, end_round,
  is_empty_fix, record_children, revalidating, on_hold,
}
use the_bureau.Graph.Store.Obeys.{Obeys, if-Obeys, option-along}
use the_bureau.Graph.Store.Steady.{IsCalm-emit, Steady, Steady-bind, Steady-preorder, Steady-pure}
use the_bureau.Rework.{Entered, handed_over, refused, resolve_rework_terminal, rework_eligibility}
use the_bureau.Graph.Store.{◌>>◌, Store, modify, pure}
use the_bureau.Prelude.{◌==◌, Bool, Option, String, length, none, not, refl, some}

module _ (r : Reconciler) where
  pub resolve_rework_terminal-Steady :
      (round : Round) (f : Option ValidationFailure) (reason : Option String)
      → Obeys Steady (resolve_rework_terminal r.wiring.env round f reason)
  unfolding resolve_rework_terminal
  resolve_rework_terminal-Steady round f reason =
      Steady-bind _ _ (update_graph_status-Steady r.wiring.env _ _ _)
        λ _. (IsCalm-emit graph_validation_failed none).steady

  pub end_round-Steady : (round : Round) → Obeys Steady (end_round r round)
  unfolding end_round
  end_round-Steady round =
      Steady-bind _ _ (resolve_rework_terminal-Steady round none none) λ _. Steady-pure _

  claim_end-Steady : (round : Round) → Obeys Steady (claim_end r round)
  unfolding claim_end
  claim_end-Steady round =
      Steady-bind _ _ (try_claim_resolution-Steady round.attempt)
        λ claimed. if-Obeys Steady claimed _ _ (end_round-Steady round) (Steady-pure on_hold)

  record_children-Steady : (head : Option String) (s : Store) → Steady s (record_children r head s)
  unfolding record_children
  record_children-Steady head s = go s.graph
    where
      with_round :
          (g : TaskGraph) (o : Option Round)
          → Steady s (elim o as (λ x. Store) [
            | none ↦ s
            | some round ↦ record s {
              graph = some (record g {
                current_round = some (record round {
                  validation_child_ids = r.new_children;
                  revalidation_head = head;
                });
              });
            }
          ])
      with_round g none = Steady-preorder.still s
      with_round g (some round) = record {
        same_tasks = refl;
        stays = λ h. refl;
        same_promotions = refl;
      }

      go :
          (o : Option TaskGraph)
          → Steady s (elim o as (λ x. Store) [
            | none ↦ s
            | some g ↦ elim g.current_round [
              | none ↦ s
              | some round ↦ record s {
                graph = some (record g {
                  current_round = some (record round {
                    validation_child_ids = r.new_children;
                    revalidation_head = head;
                  });
                });
              }
            ]
          ])
      go none = Steady-preorder.still s
      go (some g) = with_round g g.current_round

  revalidating-Steady :
      (head : Option String) → Obeys Steady (modify (record_children r head) >> pure revalidating)
  revalidating-Steady head = record { along = record_children-Steady head }

  pub before_revalidation-Steady :
      (g : TaskGraph) (round : Round) (failed : Bool)
      → Obeys Steady (before_revalidation r g round failed)
  unfolding before_revalidation
  before_revalidation-Steady g round failed = record {
    along = λ s.
        (if-Obeys Steady failed _ _ (claim_end-Steady round) (
            if-Obeys Steady (is_empty_fix round.start_head _) _ _ (claim_end-Steady round) (
              if-Obeys Steady (length r.exec_criteria == 0) _ _ (claim_end-Steady round) (
                if-Obeys Steady (not r.claims_revalidation) _ _ (Steady-pure on_hold)
                  (revalidating-Steady _))))).along
          s;
  }

  advance_entered-Steady : (round : Round) (e : Entered) → Obeys Steady (advance_entered r round e)
  unfolding advance_entered
  advance_entered-Steady round handed_over = Steady-pure advanced
  advance_entered-Steady round refused = end_round-Steady round

  pub advance-Steady :
      (g : TaskGraph) (round : Round) (reason : Option String)
      → Obeys Steady (advance r g round reason)
  unfolding advance
  advance-Steady g round reason = record {
    along = λ s.
        option-along Steady s (rework_eligibility r.wiring.graphs g reason) _ _
          ((end_round-Steady round).along s)
          λ e.
            (Steady-bind _ _
                (enter_rework_round-Steady r.wiring.env _ g _ _ e.fix_role e.max_attempts)
                λ entered. advance_entered-Steady round entered).along
              s;
  }
