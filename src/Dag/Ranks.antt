-- ===== src/Dag/Ranks.antt =====
-- Rankings of the ids of a graph that src/graph-validate.ts accepts.
use the_bureau.Dag.Degrees.{in_edges}
use the_bureau.Dag.{TaskNodeInput}
use the_bureau.Prelude.{
  All-at, All-from, Bool-cases, List, String, [], arith, contains, contains-append, eq_iff, inl,
  inr, map, str_eq, str_eq_refl, true, ◌∷◌, ◌≡◌, All,
}

-- What holds of each dependency of each input holds along the edges, and conversely.
pub edges-at :
    (P : String → String → Type 0) (inputs : List TaskNodeInput) (n d : String)
    → All (λ i. All (λ d. P d i.id) i.depends_on) inputs
    → contains d (in_edges inputs n) ≡ true
    → P d n
unfolding in_edges contains
edges-at P [] n d h c = absurd (ground (arith, c))
edges-at P (i ∷ is) n d h c = elim (Bool-cases (str_eq i.id n)) [
  | inl hit ↦ elim (Bool-cases (contains d i.depends_on)) [
    | inl here ↦
        let same : i.id ≡ n = ground (arith, eq_iff i.id n, hit) in
        rw (← same) (All-at (λ d. P d i.id) d i.depends_on h.0 here)
    | inr there ↦
        edges-at P is n d h.1
          (ground (arith, hit, there, c, contains-append d i.depends_on (in_edges is n)))
  ]
  | inr miss ↦ edges-at P is n d h.1 (ground (arith, miss, c))
]

pub edges-from :
    (P : String → String → Type 0) (inputs : List TaskNodeInput)
    → ((n d : String)
        → contains n (map (λ i. i.id) inputs) ≡ true
        → contains d (in_edges inputs n) ≡ true
        → P d n)
    → All (λ i. All (λ d. P d i.id) i.depends_on) inputs
unfolding in_edges contains
edges-from P [] f = tt
edges-from P (i ∷ is) f = (
  All-from (λ d. P d i.id) i.depends_on
      (λ d c.
        f i.id d (ground (arith, str_eq_refl i.id))
          (ground (arith, str_eq_refl i.id, c, contains-append d i.depends_on (in_edges is i.id)))),
  edges-from P is (λ n d m c.
      f n d (ground (arith, m))
        (ground (arith, c, contains-append d i.depends_on (in_edges is n)))),
)
