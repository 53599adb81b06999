-- ===== src/Siblings/Fuel.antt =====
-- The walk over the ancestors of a task in src/workspace/sibling-overlap.ts ends.
use the_bureau.Siblings.{TaskInput, ancestors_of, by_id, climb, edge_count, push}
use the_bureau.Prelude.{
  ◌+◌, Bool-cases, List, Option-cases, String, [], arith, contains, if◌then◌else◌, eq_iff, false,
  inl, inr, is_some, length, refl, some, str_eq, suc, true, zero, ℕ, ◌∙◌, ◌∷◌, ◌≡◌, ◌≤◌, Option,
  none,
}

-- The dependencies of the tasks that are not visited.
left : List TaskInput → List String → ℕ
left [] visited = 0
left (t ∷ ts) visited = (if contains t.id visited then 0 else length t.depends_on) + left ts visited

left-none : (ts : List TaskInput) → left ts [] ≡ edge_count ts
unfolding left edge_count contains
left-none [] = refl
left-none (t ∷ ts) = omega (arith, left-none ts)

left-visit :
    (ts : List TaskInput) (visited : List String) (x : String)
    → left ts (x ∷ visited) ≤ left ts visited
unfolding left contains
left-visit [] visited x = omega arith
left-visit (t ∷ ts) visited x = ground (arith, left-visit ts visited x)

left-enter :
    (ts : List TaskInput) (visited : List String) (x : String) (u : TaskInput)
    → by_id ts x ≡ some u
    → contains x visited ≡ false
    → left ts (x ∷ visited) + length u.depends_on ≤ left ts visited
unfolding left contains by_id
left-enter [] visited x u h miss = absurd (cc h)
left-enter (t ∷ ts) visited x u h miss = elim (Option-cases (by_id ts x)) [
  | inr (v, known) ↦
      let e : by_id ts x ≡ some u = known ∙ (rw (known, by_id) at h) in
      let rest = left-enter ts visited x u e miss in ground (arith, rest)
  | inl unknown ↦ elim (Bool-cases (str_eq t.id x)) [
    | inr other ↦ absurd (cc (rw (unknown, other, by_id) at h))
    | inl hit ↦
        let e : some t ≡ some u = rw (unknown, hit, by_id) at h in
        let same_id : t.id ≡ x = ground (arith, eq_iff t.id x, hit) in
        let same_length : length t.depends_on ≡ length u.depends_on = cc e in
        let absent : contains t.id visited ≡ false = cc (same_id, miss) in
        let now : str_eq x t.id ≡ true = ground (arith, eq_iff x t.id, same_id) in
        let rest = left-visit ts visited x in rw (absent, now) (omega (arith, rest, same_length))
  ]
]

length-push :
    (visited ds stack : List String) → length (push visited ds stack) ≤ length ds + length stack
unfolding push
length-push visited [] stack = omega arith
length-push visited (d ∷ ds) stack = elim (Bool-cases (contains d visited)) [
  | inl hit ↦ rw hit (omega (arith, length-push visited ds stack))
  | inr miss ↦ rw miss (omega (arith, length-push visited ds (d ∷ stack)))
]

climb-ends :
    (tasks : List TaskInput) (n : ℕ) (visited found stack : List String)
    → length stack + left tasks visited ≤ n
    → is_some (climb tasks n visited found stack) ≡ true
unfolding climb
climb-ends tasks n visited found [] h = refl
climb-ends tasks zero visited found (dep ∷ stack) h = absurd (omega (arith, h))
climb-ends tasks (suc n) visited found (dep ∷ stack) h = elim (Bool-cases (contains dep visited)) [
  | inl hit ↦ rw (hit, climb) (climb-ends tasks n visited found stack (omega (arith, h)))
  | inr miss ↦ elim (Option-cases (by_id tasks dep)) [
    | inl unknown ↦
        rw (miss, unknown, climb)
          (climb-ends tasks n (dep ∷ visited) found stack
            (omega (arith, h, left-visit tasks visited dep)))
    | inr (t, known) ↦
        rw (miss, known, climb)
          (climb-ends tasks n (dep ∷ visited) (dep ∷ found)
            (push (dep ∷ visited) t.depends_on stack)
            (omega (
              arith,
              h,
              left-enter tasks visited dep t known miss,
              length-push (dep ∷ visited) t.depends_on stack,
            )))
  ]
]

-- The walk ends on every list of tasks, also a cyclic one.
pub ancestors_of-ends :
    (tasks : List TaskInput) (id : String) → is_some (ancestors_of tasks id) ≡ true
unfolding ancestors_of contains
ancestors_of-ends tasks id = go (by_id tasks id) refl
  where
    go :
        (o : Option TaskInput)
        → by_id tasks id ≡ o
        → is_some (elim o as (λ x. Option (List String)) [
          | none ↦ climb tasks (edge_count tasks) (id ∷ []) [] []
          | some t ↦ climb tasks (edge_count tasks) (id ∷ []) [] (push [] t.depends_on [])
        ])
          ≡ true
    go none unknown =
        climb-ends tasks (edge_count tasks) (id ∷ []) [] []
          (omega (arith, left-visit tasks [] id, left-none tasks))
    go (some t) known = climb-ends tasks (edge_count tasks) (id ∷ []) [] (push [] t.depends_on []) (
        omega (
          arith,
          left-enter tasks [] id t known refl,
          left-none tasks,
          length-push [] t.depends_on [],
        ))
