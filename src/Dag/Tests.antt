-- ===== src/Dag/Tests.antt =====
-- The check for cycles at a cycle of two tasks, and behind one that waits for nothing.
use the_bureau.Dag.Acyclic.{validate_dag_iff}
use the_bureau.Dag.Order.{IsKnown, IsRanked}
use the_bureau.Dag.Laws.{run_kahn-ends}
use the_bureau.Dag.{
  TaskNodeInput, count_verdict, cycle, drain, first_unknown, id_set, in_degree, initial,
  mentions_of, relax, relax_all, run_kahn, unknown_in, validate_dag, adj,
}
use the_bureau.Prelude.{List, String, [], contains, distinct, none, refl, some, ℕ, ◌∷◌, ◌≡◌, ◌↔◌}

abbrev task : String → List String → TaskNodeInput
task id depends_on = record { id = id; depends_on = depends_on; validation = none }

abbrev cyclic : List TaskNodeInput
cyclic = task "a" [] ∷ task "b" ("a" ∷ "c" ∷ []) ∷ task "c" ("b" ∷ []) ∷ []

cyclic-is_rejected : validate_dag cyclic ≡ some (cycle 2)
unfolding validate_dag first_unknown unknown_in contains distinct id_set run_kahn drain initial
    relax_all relax adj mentions_of in_degree count_verdict
cyclic-is_rejected = refl

run_kahn-ends_example : (visited : ℕ) × (run_kahn cyclic ≡ some visited)
run_kahn-ends_example = run_kahn-ends cyclic

validate_dag_iff_example :
    (validate_dag cyclic ≡ none) ↔ (IsKnown cyclic × ((rank : String → ℕ) × IsRanked rank cyclic))
validate_dag_iff_example = validate_dag_iff cyclic
