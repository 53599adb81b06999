-- ===== src/Dag/Degrees.antt =====
-- What one round of Kahn's algorithm in src/graph-validate.ts does to degrees and queue.
use the_bureau.Dag.{Kahn, TaskNodeInput, in_degree, mentions_of, relax, relax_all, adj}
use the_bureau.Prelude.{
  ◌&&◌, ◌+◌, ◌++◌, ◌-◌, List, String, [], arith, contains, if◌then◌else◌, eq_iff, false, leb,
  length, length-append, refl, str_eq, sym, ◌||◌, ℕ, ◌∷◌, ◌≡◌, contains-append, left,
}

-- The dependencies of all inputs of one id, as often as they are mentioned.
unfoldable pub in_edges : List TaskNodeInput → String → List String
in_edges [] n = []
in_edges (i ∷ is) n = if str_eq i.id n then i.depends_on ++ in_edges is n else in_edges is n

unfoldable pub occurrences : String → List String → ℕ
occurrences n [] = 0
occurrences n (x ∷ xs) = if str_eq x n then 1 + occurrences n xs else occurrences n xs

pub left-placed :
    (node : String) (placed ds : List String)
    → contains node placed ≡ false
    → left (node ∷ placed) ds + occurrences node ds ≡ left placed ds
unfolding left contains occurrences
left-placed node placed [] h = refl
left-placed node placed (d ∷ ds) h =
    ground (arith, eq_iff node d, eq_iff d node, left-placed node placed ds h)

left-none : (ds : List String) → left [] ds ≡ length ds
unfolding left contains
left-none [] = refl
left-none (d ∷ ds) = omega (arith, left-none ds)

pub in_degree-left :
    (inputs : List TaskNodeInput) (n : String) → in_degree inputs n ≡ left [] (in_edges inputs n)
unfolding in_degree in_edges
in_degree-left [] n = sym (left-none [])
in_degree-left (i ∷ is) n =
    let ih = in_degree-left is n in
    let there = left-none (i.depends_on ++ in_edges is n) in
    let rest = left-none (in_edges is n) in
    ground (arith, length-append i.depends_on (in_edges is n), ih, there, rest)

occurrences-append :
    (n : String) (xs ys : List String)
    → occurrences n (xs ++ ys) ≡ occurrences n xs + occurrences n ys
unfolding occurrences
occurrences-append n [] ys = omega arith
occurrences-append n (x ∷ xs) ys = ground (arith, occurrences-append n xs ys)

occurrences-mentions :
    (n node task : String) (ds : List String)
    → occurrences n (mentions_of node task ds) ≡ (if str_eq task n then occurrences node ds else 0)
unfolding occurrences mentions_of
occurrences-mentions n node task [] = ground arith
occurrences-mentions n node task (d ∷ ds) = ground (arith, occurrences-mentions n node task ds)

-- A node is a neighbour as often as it mentions the node that is placed.
pub occurrences-adj :
    (inputs : List TaskNodeInput) (n node : String)
    → occurrences n (adj inputs node) ≡ occurrences node (in_edges inputs n)
unfolding adj in_edges occurrences
occurrences-adj [] n node = refl
occurrences-adj (i ∷ is) n node = ground (
  arith,
  occurrences-append n (mentions_of node i.id i.depends_on) (adj is node),
  occurrences-append node i.depends_on (in_edges is n),
  occurrences-mentions n node i.id i.depends_on,
  occurrences-adj is n node,
)

pub relax_all-degrees :
    (ns : List String) (k : Kahn) (n : String)
    → (relax_all k ns).degrees n ≡ k.degrees n - occurrences n ns
unfolding relax_all relax occurrences
relax_all-degrees [] k n = omega arith
relax_all-degrees (m ∷ ns) k n = ground (arith, eq_iff m n, relax_all-degrees ns (relax k m) n)

-- A node is queued by a round where its degree was positive and comes to 0.
pub relax_all-queue :
    (ns : List String) (k : Kahn) (n : String)
    → contains n (relax_all k ns).queue
      ≡ (contains n k.queue || (leb 1 (k.degrees n) && leb (k.degrees n) (occurrences n ns)))
unfolding relax_all occurrences relax contains
relax_all-queue [] k n = ground arith
relax_all-queue (m ∷ ns) k n =
    ground (arith, eq_iff m n, contains-append n k.queue (m ∷ []), relax_all-queue ns (relax k m) n)
