-- ===== src/Completion/Once.antt =====
-- Checks of one graph of src/task-graph.ts, one after the other.
use the_bureau.Graph.Store.{expire}
use the_bureau.Completion.Reconcile.Laws.{resume_rework_round_promotes}
use the_bureau.Completion.Reconcile.{
  Reconciled, Reconciler, reconcile_round, resume_rework_round, on_hold,
}
use the_bureau.Completion.Validated.{Outcome, given}
use the_bureau.Graph.Store.Steady.{promotions}
use the_bureau.Graph.Cancel.{is_terminal_graph}
use the_bureau.Completion.Gates.{check_graph_completion_promotes}
use the_bureau.Graph.Types.{TaskGraph, TaskNode, GraphStatus}
use the_bureau.Graph.Store.{Result, Store, all_tasks, pure, Expiry}
use the_bureau.Completion.{
  Completion, Wiring, check_graph_completion, check_tasks, is_reworking, reconcile, settled,
}
use the_bureau.Prelude.{
  ◌+◌, List, Option, [], arith, if◌then◌else◌, get_or, inl, inr, none, refl, some, true, ◌∙◌, ◌∷◌,
  ◌≡◌, ◌≤◌, false, not, Option-cases, is_some,
}

-- A check or a run of the reconciler, with what it reads outside the graph's own keys, which may
-- have changed meanwhile; or that locks run out.
pub data Check : Type 0 where
  checks : Wiring → Option (List TaskNode) → Check
  reconciles : Reconciler → Check
  expires : Expiry → Check

pub run_check : Check → Store → Store
run_check (checks w cached) s = (check_graph_completion w cached s).1
run_check (reconciles r) s = (resume_rework_round r s).1
run_check (expires e) s = expire e s

pub run_checks : List Check → Store → Store
run_checks [] s = s
run_checks (c ∷ cs) s = run_checks cs (run_check c s)

reworking-goes_on : (x : GraphStatus) → is_terminal_graph x ≡ true → is_reworking x ≡ false
unfolding is_terminal_graph is_reworking
reworking-goes_on x h = ground arith

-- A check of a graph that has ended does nothing.
check-ended :
    (w : Wiring) (cached : Option (List TaskNode)) (s : Store) (g : TaskGraph)
    → s.graph ≡ some g
    → is_terminal_graph g.status ≡ true
    → (check_graph_completion w cached s).1 ≡ s
unfolding check_graph_completion
check-ended w cached s g has ended = go s.graph has
  where
    go :
        (o : Option TaskGraph)
        → o ≡ some g
        → (elim o as (λ x. Result Completion × Store) [
          | none ↦ check_tasks w (get_or cached (all_tasks s)) s
          | some g ↦
              (if is_terminal_graph g.status
                  then pure settled
                  else if is_reworking g.status
                  then pure reconcile
                  else check_tasks w (get_or cached (all_tasks s)))
                s
        ]).1
          ≡ s
    go o e = rw (e, ended) refl

-- A graph that has ended is not under rework.
reconcile-ended :
    (r : Reconciler) (s : Store) (g : TaskGraph)
    → s.graph ≡ some g
    → is_terminal_graph g.status ≡ true
    → (resume_rework_round r s).1 ≡ s
unfolding resume_rework_round
reconcile-ended r s g has ended = go s.graph has
  where
    go :
        (o : Option TaskGraph)
        → o ≡ some g
        → (elim o as (λ x. Result Reconciled × Store) [
          | none ↦ pure on_hold s
          | some g ↦
              (if not (is_reworking g.status) then pure on_hold else elim g.current_round [
                | none ↦ pure on_hold
                | some round ↦ reconcile_round r g round
              ])
                s
        ]).1
          ≡ s
    go o e = rw (e, reworking-goes_on g.status ended) refl

IsOver : Store → Type 0
IsOver s = (g : TaskGraph) × (s.graph ≡ some g) × (is_terminal_graph g.status ≡ true)

-- Nothing promotes a graph that has ended, and it stays so.
run_check-ended :
    (c : Check) (s : Store)
    → IsOver s
    → IsOver (run_check c s) × (promotions (run_check c s).effects ≡ promotions s.effects)
unfolding run_check expire IsOver
run_check-ended (checks w cached) s (g, has, over) =
    rw (check-ended w cached s g has over) ((g, has, over), refl)
run_check-ended (reconciles r) s (g, has, over) =
    rw (reconcile-ended r s g has over) ((g, has, over), refl)
run_check-ended (expires e) s over = (over, refl)

run_checks-ended :
    (cs : List Check) (s : Store)
    → IsOver s
    → promotions (run_checks cs s).effects ≡ promotions s.effects
unfolding run_checks
run_checks-ended [] s over = refl
run_checks-ended (c ∷ cs) s over =
    run_checks-ended cs (run_check c s) (run_check-ended c s over).0 ∙ (run_check-ended c s over).1

run_check-outcome :
    (c : Check) (s : Store) → is_some s.graph ≡ true → Outcome Unit s (run_check c s)
unfolding run_check expire
run_check-outcome (checks w cached) s there = elim (Option-cases s.graph) [
  | inl missing ↦ absurd (cc (rw missing at there))
  | inr (g, has) ↦ given _ Unit s _ (λ c. tt) (check_graph_completion_promotes w cached g s has)
]
run_check-outcome (reconciles r) s there =
    given _ Unit s _ (λ c. tt) (resume_rework_round_promotes r s)
run_check-outcome (expires e) s there =
    inl (record { same_tasks = refl; stays = λ h. h; same_promotions = refl })

-- However often a graph whose record is stored is checked and its rework reconciled, in whatever
-- order, with locks that run out at any time, and whatever its children, the hooks and the given
-- tasks are each time, its work is promoted once at most.
pub run_checks_promote_once :
    (cs : List Check) (s : Store)
    → is_some s.graph ≡ true
    → promotions (run_checks cs s).effects ≤ promotions s.effects + 1
unfolding run_checks IsOver
run_checks_promote_once [] s there = omega arith
run_checks_promote_once (c ∷ cs) s there = elim (run_check-outcome c s there) [
  | inl calm ↦
      omega
        (arith, calm.same_promotions, run_checks_promote_once cs (run_check c s) (calm.stays there))
  | inr (_, p) ↦
      omega (arith, p.once, run_checks-ended cs (run_check c s) (p.graph, p.stored, p.ended))
]
