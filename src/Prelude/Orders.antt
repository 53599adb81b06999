-- ===== src/Prelude/Orders.antt =====
-- Orders on ids: lists in which each id stands after what it leads to, and the ranks they give.
use Prim.Native.Nat.{ℕ, suc, ◌≤◌, ◌<◌}
use Prim.Native.String.{String}
use mathlib.Core.Path.{◌≡◌}
use mathlib.Core.Bool.{true, false, not}
use mathlib.Core.Logic.{inl, inr}
use mathlib.Core.List.{List, [], ◌∷◌, ◌++◌}
use native.Mathlib.Omega.{arith}
use text.Mathlib.TextEquality.{eq_iff}
use the_bureau.Prelude.Tests.{if◌then◌else◌, Bool-cases}
use the_bureau.Prelude.Lists.{filter, All, length}
use the_bureau.Prelude.Texts.{str_eq, contains, contains-append, All-at}

-- How many of some ids are not in `placed`.
unfoldable pub left : List String → List String → ℕ
left placed ds = length (filter (λ d. not (contains d placed)) ds)

pub left_bound : (placed ds : List String) → left placed ds ≤ length ds
unfolding left
left_bound placed [] = omega arith
left_bound placed (d ∷ ds) = ground (arith, left_bound placed ds)

left-snoc_le :
    (node : String) (placed ds : List String) → left (placed ++ node ∷ []) ds ≤ left placed ds
unfolding left contains
left-snoc_le node placed [] = omega arith
left-snoc_le node placed (d ∷ ds) =
    ground (arith, contains-append d placed (node ∷ []), left-snoc_le node placed ds)

pub left-snoc :
    (node : String) (placed ds : List String)
    → contains node placed ≡ false
    → contains node ds ≡ true
    → left (placed ++ node ∷ []) ds < left placed ds
unfolding left contains
left-snoc node placed [] h c = cc
left-snoc node placed (d ∷ ds) h c = ground (
  arith,
  contains-append d placed (node ∷ []),
  eq_iff node d,
  eq_iff d node,
  left-snoc_le node placed ds,
  left-snoc node placed ds h,
)

-- The ids with the latest first, each once and after all that it leads to.
abbrev pub IsOrdered : (String → List String) → List String → Type 0
IsOrdered edges [] = Unit
IsOrdered edges (n ∷ ns) =
    (contains n ns ≡ false) × All (λ d. contains d ns ≡ true) (edges n) × IsOrdered edges ns

pub left_zero :
    (placed ds : List String) → left placed ds ≡ 0 → All (λ d. contains d placed ≡ true) ds
unfolding left
left_zero placed [] h = tt
left_zero placed (d ∷ ds) h = (ground (arith, h), left_zero placed ds (ground (arith, h)))

-- The place of an id in a list, from its end.
unfoldable pub rank_in : List String → String → ℕ
rank_in [] n = 0
rank_in (x ∷ xs) n = if str_eq x n then suc (length xs) else rank_in xs n

rank_in-bound : (xs : List String) (n : String) → rank_in xs n ≤ length xs
unfolding rank_in
rank_in-bound [] n = omega arith
rank_in-bound (x ∷ xs) n = ground (arith, rank_in-bound xs n)

pub ordered-placed :
    (edges : String → List String) (placed : List String) (n d : String)
    → IsOrdered edges placed
    → contains n placed ≡ true
    → contains d (edges n) ≡ true
    → contains d placed ≡ true
unfolding contains
ordered-placed edges [] n d o c e = cc
ordered-placed edges (x ∷ xs) n d o c e = elim (Bool-cases (str_eq x n)) [
  | inl hit ↦
      let same : n ≡ x = ground (arith, eq_iff x n, hit) in
      let before = All-at (λ a. contains a xs ≡ true) d (edges x) o.1 (rw same at e) in
      ground (arith, before)
  | inr miss ↦ ground (arith, ordered-placed edges xs n d o.2 (ground (arith, miss, c)) e)
]

-- Each placed id ranks above what it depends on.
pub ordered-ranks :
    (edges : String → List String) (placed : List String) (n d : String)
    → IsOrdered edges placed
    → contains n placed ≡ true
    → contains d (edges n) ≡ true
    → rank_in placed d < rank_in placed n
unfolding contains rank_in
ordered-ranks edges [] n d o c e = cc
ordered-ranks edges (x ∷ xs) n d o c e = elim (Bool-cases (str_eq x n)) [
  | inl hit ↦
      let same : n ≡ x = ground (arith, eq_iff x n, hit) in
      let before = All-at (λ a. contains a xs ≡ true) d (edges x) o.1 (rw same at e) in
      ground (arith, o.0, hit, before, eq_iff x d, rank_in-bound xs d)
  | inr miss ↦
      let there : contains n xs ≡ true = ground (arith, miss, c) in
      let ih = ordered-ranks edges xs n d o.2 there e in
      let before = ordered-placed edges xs n d o.2 there e in
      ground (arith, miss, ih, eq_iff x d, o.0, before)
]
