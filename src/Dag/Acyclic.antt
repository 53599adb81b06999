-- ===== src/Dag/Acyclic.antt =====
-- The verdict of validateDAG in src/graph-validate.ts against the definition of an acyclic graph.
use the_bureau.Dag.Degrees.{in_edges}
use the_bureau.Dag.Ranks.{edges-at, edges-from}
use the_bureau.Dag.Rounds.{waiting_exactly, Inv}
use the_bureau.Dag.Order.{IsKnown, IsRanked, run_kahn-Drained}
use the_bureau.Prelude.{
  ◌<◌, Bool-cases, List, Option, String, [], ap, arith, contains, contains-distinct, eq_iff, inl,
  inr, length, map, none, refl, some, str_eq_refl, suc, true, zero, ℕ, ◌↔◌, ◌∙◌, ◌∷◌, ◌≡◌, All,
  IsOrdered, left, ordered-ranks, rank_in,
}
use the_bureau.Dag.{
  Verdict, Kahn, TaskNodeInput, count_verdict, first_unknown, id_set, run_kahn, unknown_in,
  validate_dag,
}

unknown_in_iff :
    (ids : List String) (task : String) (ds : List String)
    → (unknown_in ids task ds ≡ none) ↔ All (λ d. contains d ids ≡ true) ds
unfolding unknown_in
unknown_in_iff ids task [] = (λ h. tt, λ h. refl)
unknown_in_iff ids task (d ∷ ds) =
    let ih = unknown_in_iff ids task ds in
    elim (Bool-cases (contains d ids)) [
      | inl hit ↦ rw hit (λ h. (refl, ih.0 h), λ h. ih.1 h.1)
      | inr miss ↦ rw miss (λ h. cc, λ h. cc)
    ]

waiting_zero :
    (ids : List String) (degrees : String → ℕ) (n : String)
    → waiting_exactly ids degrees ≡ 0
    → contains n ids ≡ true
    → degrees n ≡ 0
unfolding waiting_exactly contains
waiting_zero [] degrees n h c = cc
waiting_zero (i ∷ ids) degrees n h c = ground (arith, eq_iff i n, h, c, waiting_zero ids degrees n)

zero_waiting :
    (ids : List String) (degrees : String → ℕ)
    → ((n : String) → contains n ids ≡ true → degrees n ≡ 0)
    → waiting_exactly ids degrees ≡ 0
unfolding waiting_exactly contains
zero_waiting [] degrees f = refl
zero_waiting (i ∷ ids) degrees f =
    ground (arith, f i, str_eq_refl i, zero_waiting ids degrees (λ n c. f n (ground (arith, c))))

zero_left :
    (placed ds : List String)
    → ((d : String) → contains d ds ≡ true → contains d placed ≡ true)
    → left placed ds ≡ 0
unfolding left contains
zero_left placed [] f = refl
zero_left placed (d ∷ ds) f =
    ground (arith, f d, str_eq_refl d, zero_left placed ds (λ a c. f a (ground (arith, c))))

first_unknown_iff :
    (ids : List String) (is : List TaskNodeInput)
    → (first_unknown ids is ≡ none) ↔ All (λ i. All (λ d. contains d ids ≡ true) i.depends_on) is
unfolding first_unknown
first_unknown_iff ids [] = (λ h. tt, λ h. refl)
first_unknown_iff ids (i ∷ is) =
    go (unknown_in ids i.id i.depends_on) refl (first_unknown_iff ids is)
  where
    go :
        (u : Verdict)
        → unknown_in ids i.id i.depends_on ≡ u
        → (first_unknown ids is ≡ none)
          ↔ All (λ i. All (λ d. contains d ids ≡ true) i.depends_on) is
        → (first_unknown ids (i ∷ is) ≡ none)
          ↔ All (λ i. All (λ d. contains d ids ≡ true) i.depends_on) (i ∷ is)
    go none e ih =
        rw (e, first_unknown)
          (λ h. ((unknown_in_iff ids i.id i.depends_on).0 e, ih.0 h), λ h. ih.1 h.1)
    go (some r) e ih =
        rw (e, first_unknown)
          (λ h. cc, λ h. let f = (unknown_in_iff ids i.id i.depends_on).1 h.0 in cc)

-- Where every id is placed, the placing is a ranking.
placed-IsRanked :
    (inputs : List TaskNodeInput) (placed : List String)
    → IsOrdered (in_edges inputs) placed
    → ((n : String) → contains n (id_set inputs) ≡ true → contains n placed ≡ true)
    → IsRanked (rank_in placed) inputs
unfolding id_set
placed-IsRanked inputs placed o f =
    edges-from (λ d n. rank_in placed d < rank_in placed n) inputs
      (λ n d c e.
        ordered-ranks (in_edges inputs) placed n d o
          (f n (contains-distinct n (map (λ i. i.id) inputs) ∙ c)) e)

-- With a ranking and an empty queue, every id of a rank below a bound is placed.
ranked-placed :
    (inputs : List TaskNodeInput) (rank : String → ℕ) (placed : List String) (k : Kahn)
    → IsKnown inputs
    → IsRanked rank inputs
    → Inv inputs placed k
    → k.queue ≡ []
    → (bound : ℕ) (n : String) → rank n < bound
    → contains n (id_set inputs) ≡ true
    → contains n placed ≡ true
unfolding contains
ranked-placed inputs rank placed k known ranked inv empty zero n b c = absurd (omega (arith, b))
ranked-placed inputs rank placed k known ranked inv empty (suc bound) n b c =
    let settled = zero_left placed (in_edges inputs n) (λ d e.
      ranked-placed inputs rank placed k known ranked inv empty bound d
        (omega (arith, b, edges-at (λ d n. rank d < rank n) inputs n d ranked e))
        (edges-at (λ d n. contains d (id_set inputs) ≡ true) inputs n d known e)) in
    elim (inv.full n c (inv.degrees n ∙ settled)) [
      | inl queued ↦ absurd (ground (arith, rw empty at queued))
      | inr there ↦ there
    ]

count_verdict_iff :
    (total : ℕ) (result : Option ℕ) (visited : ℕ)
    → result ≡ some visited
    → (count_verdict total result ≡ none) ↔ (visited ≡ total)
unfolding count_verdict
count_verdict_iff total result visited e = rw e (λ h. ground (arith, h), λ h. ground (arith, h))

-- Every id is placed exactly where the count is that of all ids.
all_counted :
    (inputs : List TaskNodeInput) (placed : List String) (k : Kahn)
    → Inv inputs placed k
    → k.queue ≡ []
    → k.visited ≡ length (id_set inputs)
    → (n : String) → contains n (id_set inputs) ≡ true
    → contains n placed ≡ true
unfolding contains
all_counted inputs placed k inv empty all_of n c =
    let idle = waiting_zero (id_set inputs) k.degrees n (omega (arith, inv.counted, all_of)) c in
    elim (inv.full n c idle) [
      | inl queued ↦ absurd (ground (arith, rw empty at queued))
      | inr there ↦ there
    ]

counted_all :
    (inputs : List TaskNodeInput) (placed : List String) (k : Kahn)
    → Inv inputs placed k
    → k.queue ≡ []
    → ((n : String) → contains n (id_set inputs) ≡ true → contains n placed ≡ true)
    → k.visited ≡ length (id_set inputs)
counted_all inputs placed k inv empty f =
    let idle = zero_waiting (id_set inputs) k.degrees (λ n c. inv.settled n (f n c)) in
    omega (arith, inv.counted, idle, ap length empty)

run_kahn_iff :
    (inputs : List TaskNodeInput)
    → IsKnown inputs
    → (count_verdict (length (id_set inputs)) (run_kahn inputs) ≡ none)
      ↔ ((rank : String → ℕ) × IsRanked rank inputs)
run_kahn_iff inputs known =
    let d = run_kahn-Drained inputs in
    let verdict =
      count_verdict_iff (length (id_set inputs)) (run_kahn inputs) d.last.visited d.answer in
    (
      λ h. (
        rank_in d.placed,
        placed-IsRanked inputs d.placed d.inv.ordered
            (all_counted inputs d.placed d.last d.inv d.empty (verdict.0 h)),
      ),
      λ r. verdict.1 (
          counted_all inputs d.placed d.last d.inv d.empty (λ n.
            ranked-placed inputs r.0 d.placed d.last known r.1 d.inv d.empty (suc (r.0 n)) n
              (omega arith))),
    )

-- A graph passes if and only if every dependency is an id of the graph and the ids can be ranked so
-- that each dependency ranks below the task that has it, that is, there is no cycle.
pub validate_dag_iff :
    (inputs : List TaskNodeInput)
    → (validate_dag inputs ≡ none) ↔ (IsKnown inputs × ((rank : String → ℕ) × IsRanked rank inputs))
unfolding validate_dag
validate_dag_iff inputs = go (first_unknown (id_set inputs) inputs) refl
  where
    known_iff : (first_unknown (id_set inputs) inputs ≡ none) ↔ IsKnown inputs
    known_iff = first_unknown_iff (id_set inputs) inputs

    go :
        (u : Verdict)
        → first_unknown (id_set inputs) inputs ≡ u
        → (validate_dag inputs ≡ none)
          ↔ (IsKnown inputs × ((rank : String → ℕ) × IsRanked rank inputs))
    go none e =
        let ranks = run_kahn_iff inputs (known_iff.0 e) in
        rw (e, validate_dag) (λ h. (known_iff.0 e, ranks.0 h), λ h. ranks.1 h.1)
    go (some r) e = rw (e, validate_dag) (λ h. cc, λ h. let f = known_iff.1 h.0 in cc)
