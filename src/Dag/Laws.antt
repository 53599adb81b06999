-- ===== src/Dag/Laws.antt =====
-- The loop of Kahn's algorithm in src/graph-validate.ts, and its fuel.
use the_bureau.Prelude.{
  ◌+◌, ◌-◌, ◌<◌, ◌==◌, Bool-cases, List, String, [], arith, contains, if◌then◌else◌, eq_iff, filter,
  inl, inr, length, length-append, not, str_eq, true, ℕ, ◌∷◌, ◌≡◌, ◌≤◌, All, All-append,
  contains-distinct, map, refl, some, str_eq_refl, suc, zero, ◌∙◌, length-filter_split,
}
use the_bureau.Dag.{
  Kahn, relax, relax_all, TaskNodeInput, drain, in_degree, mentions_of, run_kahn, adj, id_set,
  initial,
}

-- The ids that still wait for a dependency.
waiting : List String → (String → ℕ) → ℕ
waiting ids degrees = length (filter (λ i. not (degrees i == 0)) ids)

fall : String → (String → ℕ) → String → ℕ
fall n degrees id = if str_eq n id then degrees n - 1 else degrees id

waiting-fall-le :
    (ids : List String) (n : String) (degrees : String → ℕ)
    → waiting ids (fall n degrees) ≤ waiting ids degrees
unfolding waiting fall
waiting-fall-le [] n degrees = omega arith
waiting-fall-le (i ∷ ids) n degrees = ground (arith, eq_iff n i, waiting-fall-le ids n degrees)

waiting-fall-lt :
    (ids : List String) (n : String) (degrees : String → ℕ)
    → contains n ids ≡ true
    → degrees n ≡ 1
    → waiting ids (fall n degrees) < waiting ids degrees
unfolding waiting fall contains
waiting-fall-lt [] n degrees c h = cc
waiting-fall-lt (i ∷ ids) n degrees c h =
    ground
      (arith, eq_iff n i, eq_iff i n, waiting-fall-le ids n degrees, waiting-fall-lt ids n degrees)

abbrev measure : List String → Kahn → ℕ
measure ids k = length k.queue + waiting ids k.degrees

relax-measure :
    (ids : List String) (k : Kahn) (n : String)
    → contains n ids ≡ true
    → measure ids (relax k n) ≤ measure ids k
unfolding relax fall
relax-measure ids k n c =
    let le = waiting-fall-le ids n k.degrees in
    let lt = waiting-fall-lt ids n k.degrees c in
    let more = length-append k.queue (n ∷ []) in
    elim (Bool-cases (k.degrees n == 1)) [
      | inl one ↦ rw one (omega (arith, more, lt (ground (arith, one))))
      | inr other ↦ rw other (omega (arith, le))
    ]

relax_all-measure :
    (ids : List String) (ns : List String) (k : Kahn)
    → All (λ n. contains n ids ≡ true) ns
    → measure ids (relax_all k ns) ≤ measure ids k
unfolding relax_all
relax_all-measure ids [] k h = omega arith
relax_all-measure ids (n ∷ ns) k h =
    omega (arith, relax-measure ids k n h.0, relax_all-measure ids ns (relax k n) h.1)

mentions_of-All :
    (P : String → Type 0) (node task : String) (ds : List String)
    → P task
    → All P (mentions_of node task ds)
unfolding mentions_of
mentions_of-All P node task [] p = tt
mentions_of-All P node task (d ∷ ds) p = elim (Bool-cases (str_eq d node)) [
  | inl hit ↦ rw hit (p, mentions_of-All P node task ds p)
  | inr miss ↦ rw miss (mentions_of-All P node task ds p)
]

adj-All :
    (P : String → Type 0) (inputs : List TaskNodeInput) (node : String)
    → All (λ i. P i.id) inputs
    → All P (adj inputs node)
unfolding adj
adj-All P [] node h = tt
adj-All P (i ∷ is) node h =
    All-append P (mentions_of node i.id i.depends_on) (adj is node)
      (mentions_of-All P node i.id i.depends_on h.0) (adj-All P is node h.1)

All-named :
    (ids : List String) (inputs : List TaskNodeInput)
    → ((a : String) → contains a (map (λ i. i.id) inputs) ≡ true → contains a ids ≡ true)
    → All (λ i. contains i.id ids ≡ true) inputs
unfolding contains
All-named ids [] h = tt
All-named ids (i ∷ is) h =
    (h i.id (ground (arith, str_eq_refl i.id)), All-named ids is (λ a c. h a (ground (arith, c))))

pub adj-known :
    (inputs : List TaskNodeInput) (node : String)
    → All (λ n. contains n (id_set inputs) ≡ true) (adj inputs node)
unfolding id_set
adj-known inputs node =
    adj-All (λ n. contains n (id_set inputs) ≡ true) inputs node
      (All-named (id_set inputs) inputs (λ a c. contains-distinct a (map (λ i. i.id) inputs) ∙ c))

drain-ends :
    (inputs : List TaskNodeInput) (fuel : ℕ) (k : Kahn) (queue : List String)
    → length queue + waiting (id_set inputs) k.degrees ≤ fuel
    → (visited : ℕ) × (drain fuel inputs k queue ≡ some visited)
unfolding drain
drain-ends inputs fuel k [] h = (k.visited, refl)
drain-ends inputs zero k (node ∷ queue) h = absurd (omega (arith, h))
drain-ends inputs (suc fuel) k (node ∷ queue) h =
    let k0 : Kahn = record k { queue = queue; visited = k.visited + 1 } in
    let k' = relax_all k0 (adj inputs node) in
    drain-ends inputs fuel k' k'.queue (
      omega
        (arith, h, relax_all-measure (id_set inputs) (adj inputs node) k0 (adj-known inputs node)))

-- The check for cycles ends on every input, with a count of visited tasks: the number of ids is
-- fuel enough.
pub run_kahn-ends : (inputs : List TaskNodeInput) → (visited : ℕ) × (run_kahn inputs ≡ some visited)
unfolding run_kahn initial waiting
run_kahn-ends inputs =
    drain-ends inputs (length (id_set inputs)) (initial inputs) (initial inputs).queue
      (omega (arith, length-filter_split (λ i. in_degree inputs i == 0) (id_set inputs)))
