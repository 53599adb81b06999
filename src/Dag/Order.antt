-- ===== src/Dag/Order.antt =====
-- The verdict of src/graph-validate.ts against the definition of an acyclic graph.
use the_bureau.Dag.Degrees.{in_degree-left}
use the_bureau.Dag.Rounds.{
  id_set-is_nodup, next_round, relax_all-visited, round-Inv, waiting_exactly, Inv,
}
use the_bureau.Dag.Laws.{adj-known}
use the_bureau.Dag.{Kahn, TaskNodeInput, drain, id_set, in_degree, initial, run_kahn, adj}
use the_bureau.Prelude.{
  ◌+◌, ◌<◌, ◌==◌, List, Option, String, [], ap, arith, contains, contains-filter, inl,
  is_nodup-filter, length, length-filter_split, refl, some, suc, true, zero, ℕ, ◌∷◌, ◌≡◌, ◌≤◌, All,
}

-- Every dependency is the id of an input.
abbrev pub IsKnown : List TaskNodeInput → Type 0
IsKnown inputs = All (λ i. All (λ d. contains d (id_set inputs) ≡ true) i.depends_on) inputs

-- Every dependency ranks below what depends on it.
abbrev pub IsRanked : (String → ℕ) → List TaskNodeInput → Type 0
IsRanked rank inputs = All (λ i. All (λ d. rank d < rank i.id) i.depends_on) inputs

initial-Inv : (inputs : List TaskNodeInput) → Inv inputs [] (initial inputs)
unfolding initial contains waiting_exactly
initial-Inv inputs = record {
  degrees = λ n. in_degree-left inputs n;
  once = is_nodup-filter (λ id. in_degree inputs id == 0) (id_set inputs) (id_set-is_nodup inputs);
  fresh = λ n h. refl;
  idle =
      λ n h. ground (arith, h, contains-filter (λ id. in_degree inputs id == 0) n (id_set inputs));
  settled = λ n h. cc;
  full = λ n h z.
      inl
        (ground (arith, h, z, contains-filter (λ id. in_degree inputs id == 0) n (id_set inputs)));
  ordered = tt;
  counted = omega (arith, length-filter_split (λ id. in_degree inputs id == 0) (id_set inputs));
}

-- What a drained queue leaves.
pub record Drained (inputs : List TaskNodeInput) (result : Option ℕ) : Type 0 where
  pub placed : List String
  pub last : Kahn
  pub inv : Inv inputs placed last
  pub empty : last.queue ≡ []
  pub answer : result ≡ some last.visited

drain-Drained :
    (inputs : List TaskNodeInput) (fuel : ℕ) (placed : List String) (k : Kahn) (queue : List String)
    → k.queue ≡ queue
    → Inv inputs placed k
    → length k.queue + waiting_exactly (id_set inputs) k.degrees ≤ fuel
    → Drained inputs (drain fuel inputs k queue)
unfolding drain
drain-Drained inputs fuel placed k [] e inv h = record {
  placed = placed;
  last = k;
  inv = inv;
  empty = e;
  answer = refl;
}
drain-Drained inputs zero placed k (node ∷ queue) e inv h = absurd (omega (arith, h, ap length e))
drain-Drained inputs (suc fuel) placed k (node ∷ queue) e inv h =
    let known = adj-known inputs node in
    let inv' = round-Inv inputs placed k node queue e inv known in
    drain-Drained inputs fuel (node ∷ placed) (next_round inputs k node queue)
      (next_round inputs k node queue).queue refl inv'
      (omega (
        arith,
        h,
        inv.counted,
        inv'.counted,
        relax_all-visited (adj inputs node) (record k { queue = queue; visited = k.visited + 1 }),
      ))

pub run_kahn-Drained : (inputs : List TaskNodeInput) → Drained inputs (run_kahn inputs)
unfolding run_kahn
run_kahn-Drained inputs =
    let inv = initial-Inv inputs in
    drain-Drained inputs (length (id_set inputs)) [] (initial inputs) (initial inputs).queue refl
      inv (omega (arith, inv.counted))
