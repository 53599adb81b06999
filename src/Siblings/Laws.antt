-- ===== src/Siblings/Laws.antt =====
-- Ancestors of a task in src/workspace/sibling-overlap.ts.
use the_bureau.Yield.{before}
use mathlib.Core.Path.{subst}
use the_bureau.Siblings.{TaskInput, by_id, push, climb, ancestors_of, edge_count}
use the_bureau.Prelude.{
  Bool-cases, List, String, [], arith, contains, eq_iff, inl, inr, refl, some, str_eq, true, ◌||◌,
  ◌∷◌, ◌≡◌, Option-cases, none, suc, zero, ℕ, false,
}

-- `x` is a dependency of `a`, or one of a task that is such a dependency.
pub data Depends (tasks : List TaskInput) (a : String) : String → Type 0 where
  direct :
      (t : TaskInput) (x : String)
      → by_id tasks a ≡ some t
      → contains x t.depends_on ≡ true
      → Depends tasks a x
  via :
      (y : String) (t : TaskInput) (x : String)
      → Depends tasks a y
      → by_id tasks y ≡ some t
      → contains x t.depends_on ≡ true
      → Depends tasks a x

contains-push :
    (visited ds stack : List String) (x : String)
    → (contains x visited || contains x (push visited ds stack))
      ≡ (contains x visited || (contains x ds || contains x stack))
unfolding push contains
contains-push visited [] stack x = refl
contains-push visited (d ∷ ds) stack x = elim (Bool-cases (contains d visited)) [
  | inl hit ↦
      let rest = contains-push visited ds stack x in rw hit (ground (arith, rest, eq_iff d x, hit))
  | inr miss ↦ let rest = contains-push visited ds (d ∷ stack) x in rw miss (ground (arith, rest))
]

module _ (tasks : List TaskInput) (start : String) where
  -- What is visited has its dependencies visited or on the stack, and is found where it is a task
  -- other than the start.
  record Climbing (visited found stack : List String) : Type 0 where
    closed :
        (u : String) (t : TaskInput) (d : String)
        → contains u visited ≡ true
        → by_id tasks u ≡ some t
        → contains d t.depends_on ≡ true
        → (contains d visited || contains d stack) ≡ true
    kept :
        (u : String) (t : TaskInput)
        → contains u visited ≡ true
        → by_id tasks u ≡ some t
        → (str_eq start u || contains u found) ≡ true

  skip :
      (visited found stack : List String) (dep : String)
      → contains dep visited ≡ true
      → Climbing visited found (dep ∷ stack)
      → Climbing visited found stack
  unfolding contains
  skip visited found stack dep hit c = record {
    closed = λ u t d in_u is_u dep_u.
        let old = c.closed u t d in_u is_u dep_u in ground (arith, old, eq_iff dep d, hit);
    kept = c.kept;
  }

  pass :
      (visited found stack : List String) (dep : String)
      → by_id tasks dep ≡ none
      → Climbing visited found (dep ∷ stack)
      → Climbing (dep ∷ visited) found stack
  unfolding contains
  pass visited found stack dep unknown c = record {
    closed = λ u t d in_u is_u dep_u. elim (Bool-cases (str_eq dep u)) [
      | inl here ↦
          let e : dep ≡ u = ground (arith, eq_iff dep u, here) in absurd (cc (unknown, is_u, e))
      | inr other ↦
          let old = c.closed u t d (ground (arith, in_u, other)) is_u dep_u in ground (arith, old)
    ];
    kept = λ u t in_u is_u. elim (Bool-cases (str_eq dep u)) [
      | inl here ↦
          let e : dep ≡ u = ground (arith, eq_iff dep u, here) in absurd (cc (unknown, is_u, e))
      | inr other ↦ c.kept u t (ground (arith, in_u, other)) is_u
    ];
  }

  enter :
      (visited found stack : List String) (dep : String) (new : TaskInput)
      → by_id tasks dep ≡ some new
      → Climbing visited found (dep ∷ stack)
      → Climbing (dep ∷ visited) (dep ∷ found) (push (dep ∷ visited) new.depends_on stack)
  unfolding contains
  enter visited found stack dep new known c = record {
    closed = λ u t d in_u is_u dep_u.
        let after = contains-push (dep ∷ visited) new.depends_on stack d in
        elim (Bool-cases (str_eq dep u)) [
          | inl here ↦
              let e : dep ≡ u = ground (arith, eq_iff dep u, here) in
              let e2 : some new ≡ some t = cc (known, is_u, e) in
              let e3 : contains d new.depends_on ≡ true = cc (e2, dep_u) in
              ground (arith, after, e3)
          | inr other ↦
              let old = c.closed u t d (ground (arith, in_u, other)) is_u dep_u in
              ground (arith, after, old)
        ];
    kept = λ u t in_u is_u. elim (Bool-cases (str_eq dep u)) [
      | inl here ↦ ground (arith, here)
      | inr other ↦ let old = c.kept u t (ground (arith, in_u, other)) is_u in ground (arith, old)
    ];
  }

  -- What a walk gives back has all that its stack leads to.
  record Climbed (visited stack out : List String) : Type 0 where
    last : List String
    finished : Climbing last out []
    more : (x : String) → (contains x visited || contains x stack) ≡ true → contains x last ≡ true

  climb-Climbed :
      (n : ℕ) (visited found stack out : List String)
      → Climbing visited found stack
      → climb tasks n visited found stack ≡ some out
      → Climbed visited stack out
  unfolding climb contains
  climb-Climbed n visited found [] out c h =
      let e : found ≡ out = cc h in
      record {
        last = visited;
        finished = subst (λ o. Climbing visited o []) e c;
        more = λ x m. ground (arith, m);
      }
  climb-Climbed zero visited found (dep ∷ stack) out c h = absurd (cc h)
  climb-Climbed (suc n) visited found (dep ∷ stack) out c h =
      elim (Bool-cases (contains dep visited)) [
        | inl hit ↦
            let r =
              climb-Climbed n visited found stack out (skip visited found stack dep hit c)
                (rw (hit, climb) at h) in
            record {
              last = r.last;
              finished = r.finished;
              more = λ x m. r.more x (ground (arith, m, hit, eq_iff dep x));
            }
        | inr miss ↦ elim (Option-cases (by_id tasks dep)) [
          | inl unknown ↦
              let r =
                climb-Climbed n (dep ∷ visited) found stack out
                  (pass visited found stack dep unknown c) (rw (miss, unknown, climb) at h) in
              record {
                last = r.last;
                finished = r.finished;
                more = λ x m. r.more x (ground (arith, m));
              }
          | inr (new, known) ↦
              let r =
                climb-Climbed n (dep ∷ visited) (dep ∷ found)
                  (push (dep ∷ visited) new.depends_on stack) out
                  (enter visited found stack dep new known c) (rw (miss, known, climb) at h) in
              record {
                last = r.last;
                finished = r.finished;
                more = λ x m.
                    r.more x
                      (ground (arith, m, contains-push (dep ∷ visited) new.depends_on stack x));
              }
        ]
      ]

  ancestors-Climbed :
      (out : List String)
      → ancestors_of tasks start ≡ some out
      → (last : List String) × Climbing last out []
        × ((t : TaskInput) (x : String)
            → by_id tasks start ≡ some t
            → contains x t.depends_on ≡ true
            → contains x last ≡ true)
  unfolding ancestors_of contains
  ancestors-Climbed out h = elim (Option-cases (by_id tasks start)) [
    | inl unknown ↦
        let begins : Climbing (start ∷ []) [] [] = record {
          closed = λ u t d in_u is_u dep_u.
              let e : start ≡ u = ground (arith, in_u, eq_iff start u) in
              absurd (cc (unknown, is_u, e));
          kept = λ u t in_u is_u. ground (arith, in_u);
        } in
        let r =
          climb-Climbed (edge_count tasks) (start ∷ []) [] [] out begins
            (rw (unknown, ancestors_of) at h) in
        (r.last, r.finished, λ t x is_t dep. absurd (cc (unknown, is_t)))
    | inr (s, known) ↦
        let begins : Climbing (start ∷ []) [] (push [] s.depends_on []) = record {
          closed = λ u t d in_u is_u dep_u.
              let e : start ≡ u = ground (arith, in_u, eq_iff start u) in
              let e2 : some s ≡ some t = cc (known, is_u, e) in
              let e3 : contains d s.depends_on ≡ true = cc (e2, dep_u) in
              let p = contains-push [] s.depends_on [] d in ground (arith, p, e3);
          kept = λ u t in_u is_u. ground (arith, in_u);
        } in
        let r =
          climb-Climbed (edge_count tasks) (start ∷ []) [] (push [] s.depends_on []) out begins
            (rw (known, ancestors_of) at h) in
        (
          r.last,
          r.finished,
          λ t x is_t dep.
              let e2 : some s ≡ some t = cc (known, is_t) in
              let e3 : contains x s.depends_on ≡ true = cc (e2, dep) in
              let p = contains-push [] s.depends_on [] x in r.more x (ground (arith, p, e3)),
        )
  ]

  -- Every dependency that is itself a task, the start excepted, is among the ancestors.
  pub Depends-found :
      (out : List String) (x : String) (u : TaskInput)
      → ancestors_of tasks start ≡ some out
      → Depends tasks start x
      → by_id tasks x ≡ some u
      → str_eq start x ≡ false
      → contains x out ≡ true
  unfolding contains
  Depends-found out x u h dep known other =
      let found = r.1.kept x u (reach x dep) known in ground (arith, found, other)
    where
      r :
          (last : List String) × Climbing last out []
          × ((t : TaskInput) (x : String)
              → by_id tasks start ≡ some t
              → contains x t.depends_on ≡ true
              → contains x last ≡ true)
      r = ancestors-Climbed out h

      reach : (y : String) → Depends tasks start y → contains y r.0 ≡ true
      reach _ (direct t y is_t d) = r.2 t y is_t d
      reach _ (via z t y before is_z d) =
          let old = r.1.closed z t y (reach z before) is_z d in ground (arith, old)
