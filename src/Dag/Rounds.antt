-- ===== src/Dag/Rounds.antt =====
-- The invariant of Kahn's algorithm in src/graph-validate.ts: what is placed, queued and waiting
-- between two rounds.
use the_bureau.Dag.Degrees.{
  in_edges, occurrences, occurrences-adj, relax_all-degrees, relax_all-queue, left-placed,
}
use the_bureau.Dag.{Kahn, TaskNodeInput, id_set, relax, relax_all, adj}
use the_bureau.Prelude.{
  ◌&&◌, ◌+◌, ◌-◌, ◌==◌, Bool-cases, List, String, [], arith, contains, if◌then◌else◌, eq_iff, false,
  filter, inl, inr, is_nodup, is_nodup-snoc, leb, length, length-append, not, refl, str_eq,
  str_eq_refl, true, ◌||◌, ℕ, ◌∙◌, ◌∷◌, ◌≡◌, ◌⊎◌, All, ap, is_nodup-distinct, map, IsOrdered, left,
  left_zero,
}

-- The ids that still wait, exactly.
unfoldable pub waiting_exactly : List String → (String → ℕ) → ℕ
waiting_exactly ids degrees = length (filter (λ i. not (degrees i == 0)) ids)

waiting-absent :
    (ids : List String) (n : String) (degrees : String → ℕ)
    → contains n ids ≡ false
    → waiting_exactly ids (λ i. if str_eq n i then degrees n - 1 else degrees i)
      ≡ waiting_exactly ids degrees
unfolding waiting_exactly contains
waiting-absent [] n degrees h = refl
waiting-absent (i ∷ ids) n degrees h =
    ground (arith, eq_iff n i, eq_iff i n, waiting-absent ids n degrees)

waiting-fall :
    (ids : List String) (n : String) (degrees : String → ℕ)
    → is_nodup ids ≡ true
    → contains n ids ≡ true
    → waiting_exactly ids (λ i. if str_eq n i then degrees n - 1 else degrees i)
        + (if degrees n == 1 then 1 else 0)
      ≡ waiting_exactly ids degrees
unfolding waiting_exactly contains is_nodup
waiting-fall [] n degrees u h = cc
waiting-fall (i ∷ ids) n degrees u h =
    ground (arith, eq_iff n i, eq_iff i n, waiting-absent ids n degrees, waiting-fall ids n degrees)

relax-counted :
    (ids : List String) (k : Kahn) (n : String)
    → is_nodup ids ≡ true
    → contains n ids ≡ true
    → length (relax k n).queue + waiting_exactly ids (relax k n).degrees
      ≡ length k.queue + waiting_exactly ids k.degrees
unfolding relax
relax-counted ids k n u h =
    let fall = waiting-fall ids n k.degrees u h in
    let more = length-append k.queue (n ∷ []) in
    elim (Bool-cases (k.degrees n == 1)) [
      | inl one ↦ rw one (omega (arith, more, rw one at fall))
      | inr other ↦ rw other (omega (arith, rw other at fall))
    ]

pub relax_all-counted :
    (ids ns : List String) (k : Kahn)
    → is_nodup ids ≡ true
    → All (λ n. contains n ids ≡ true) ns
    → length (relax_all k ns).queue + waiting_exactly ids (relax_all k ns).degrees
      ≡ length k.queue + waiting_exactly ids k.degrees
unfolding relax_all
relax_all-counted ids [] k u h = refl
relax_all-counted ids (n ∷ ns) k u h =
    relax_all-counted ids ns (relax k n) u h.1 ∙ relax-counted ids k n u h.0

pub relax_all-visited : (ns : List String) (k : Kahn) → (relax_all k ns).visited ≡ k.visited
unfolding relax_all relax
relax_all-visited [] k = refl
relax_all-visited (n ∷ ns) k = relax_all-visited ns (relax k n)

relax-nodup :
    (k : Kahn) (n : String)
    → is_nodup k.queue ≡ true
    → (contains n k.queue ≡ true → k.degrees n ≡ 0)
    → is_nodup (relax k n).queue ≡ true
unfolding relax
relax-nodup k n u idle = elim (Bool-cases (k.degrees n == 1)) [
  | inl one ↦ rw one (is_nodup-snoc k.queue n u (ground (arith, one, idle)))
  | inr other ↦ rw other u
]

pub relax_all-nodup :
    (ns : List String) (k : Kahn)
    → is_nodup k.queue ≡ true
    → ((n : String) → contains n k.queue ≡ true → k.degrees n ≡ 0)
    → is_nodup (relax_all k ns).queue ≡ true
unfolding relax_all
relax_all-nodup [] k u idle = u
relax_all-nodup (n ∷ ns) k u idle =
    relax_all-nodup ns (relax k n) (relax-nodup k n u (idle n)) (λ m q. still m q)
  where
    still : (m : String) → contains m (relax k n).queue ≡ true → (relax k n).degrees m ≡ 0
    still m q = ground (arith, relax_all-queue (n ∷ []) k m, relax_all-degrees (n ∷ []) k m, idle m)

pub record Inv (inputs : List TaskNodeInput) (placed : List String) (k : Kahn) : Type 0 where
  pub degrees : (n : String) → k.degrees n ≡ left placed (in_edges inputs n)
  pub once : is_nodup k.queue ≡ true
  pub fresh : (n : String) → contains n k.queue ≡ true → contains n placed ≡ false
  pub idle : (n : String) → contains n k.queue ≡ true → k.degrees n ≡ 0
  pub settled : (n : String) → contains n placed ≡ true → k.degrees n ≡ 0
  pub full :
      (n : String)
      → contains n (id_set inputs) ≡ true
      → k.degrees n ≡ 0
      → (contains n k.queue ≡ true) ⊎ (contains n placed ≡ true)
  pub ordered : IsOrdered (in_edges inputs) placed
  pub counted :
      k.visited + (length k.queue + waiting_exactly (id_set inputs) k.degrees)
      ≡ length (id_set inputs)

abbrev pub next_round : List TaskNodeInput → Kahn → String → List String → Kahn
next_round inputs k node rest =
    relax_all (record k { queue = rest; visited = k.visited + 1 }) (adj inputs node)

pub id_set-is_nodup : (inputs : List TaskNodeInput) → is_nodup (id_set inputs) ≡ true
unfolding id_set
id_set-is_nodup inputs = is_nodup-distinct (map (λ i. i.id) inputs)

module _ (inputs : List TaskNodeInput) (placed : List String) (k : Kahn) (node : String)
    (rest : List String) (pending : k.queue ≡ node ∷ rest) (inv : Inv inputs placed k) where
  popped : Kahn
  popped = record k { queue = rest; visited = k.visited + 1 }

  after : Kahn
  unfolding popped
  after = relax_all popped (adj inputs node)

  in_queue : (n : String) → contains n k.queue ≡ (str_eq node n || contains n rest)
  unfolding contains
  in_queue n = rw pending refl

  node_new : contains node placed ≡ false
  node_new = inv.fresh node (ground (arith, in_queue node, str_eq_refl node))

  degree_falls : (n : String) → after.degrees n ≡ k.degrees n - occurrences node (in_edges inputs n)
  unfolding after popped
  degree_falls n =
      omega (arith, relax_all-degrees (adj inputs node) popped n, occurrences-adj inputs n node)

  queue_grows :
      (n : String)
      → contains n after.queue ≡ (
          contains n rest
          || (leb 1 (k.degrees n) && leb (k.degrees n) (occurrences node (in_edges inputs n))))
  unfolding after popped
  queue_grows n = rw (← occurrences-adj inputs n node) (relax_all-queue (adj inputs node) popped n)

  rest_apart : (n : String) → contains n rest ≡ true → (str_eq node n ≡ false) × (k.degrees n ≡ 0)
  unfolding is_nodup
  rest_apart n h =
      let u = rw pending at inv.once in
      (ground (arith, u, eq_iff node n, h), inv.idle n (ground (arith, in_queue n, h)))

  placing :
      (n : String)
      → left (node ∷ placed) (in_edges inputs n) + occurrences node (in_edges inputs n)
        ≡ left placed (in_edges inputs n)
  placing n = left-placed node placed (in_edges inputs n) node_new

  pub round-Inv :
      All (λ n. contains n (id_set inputs) ≡ true) (adj inputs node)
      → Inv inputs (node ∷ placed) (next_round inputs k node rest)
  unfolding after popped contains is_nodup
  round-Inv adj_known = record {
    degrees = λ n. omega (arith, degree_falls n, placing n, inv.degrees n);
    once =
        relax_all-nodup (adj inputs node) popped (ground (arith, rw pending at inv.once))
          (λ n h. (rest_apart n h).1);
    fresh = λ n h. ground (
      arith,
      h,
      queue_grows n,
      rest_apart n,
      inv.fresh n,
      in_queue n,
      inv.settled n,
      inv.idle node,
      in_queue node,
      str_eq_refl node,
      eq_iff node n,
    );
    idle = λ n h. ground (arith, h, queue_grows n, rest_apart n, degree_falls n);
    settled = λ n h.
        ground (arith, h, degree_falls n, inv.settled n, inv.idle n, in_queue n, eq_iff node n);
    full = λ n h z.
        ground
          (arith, h, z, degree_falls n, queue_grows n, inv.full n h, in_queue n, eq_iff node n);
    ordered = (
      node_new,
      left_zero placed (in_edges inputs node)
          (ground (arith, inv.degrees node, inv.idle node, in_queue node, str_eq_refl node)),
      inv.ordered,
    );
    counted = omega (
      arith,
      inv.counted,
      ap length pending,
      relax_all-counted (id_set inputs) (adj inputs node) popped (id_set-is_nodup inputs) adj_known,
      relax_all-visited (adj inputs node) popped,
    );
  }
