-- ===== src/Prelude/Texts.antt =====
-- Texts as identifiers: equality, lists used as sets, and maps from texts.
use Prim.Native.String.{String}
use mathlib.Core.Path.{◌≡◌, refl}
use mathlib.Core.Bool.{Bool, true, false, not, ◌&&◌, ◌||◌}
use mathlib.Core.Logic.{inl, inr}
use mathlib.Core.List.{List, [], ◌∷◌, ◌++◌}
use native.Mathlib.Omega.{arith}
use text.Mathlib.Text.{◌==◌}
use text.Mathlib.TextEquality.{eq_iff}
use text.Mathlib.TextPositions.{eq_refl}
use the_bureau.Prelude.Tests.{if◌then◌else◌, Bool-cases}
use the_bureau.Prelude.Lists.{filter, All}

-- `a === b`
abbrev pub str_eq : String → String → Bool
str_eq a b = a == b

pub str_eq_refl : (a : String) → str_eq a a ≡ true
str_eq_refl a = eq_refl a

-- `new Set(xs).has(a)`
unfoldable pub contains : String → List String → Bool
contains a [] = false
contains a (x ∷ xs) = str_eq x a || contains a xs

-- `set.add(a)`, `sadd`
unfoldable pub set_add : String → List String → List String
set_add a xs = if contains a xs then xs else a ∷ xs

without : String → List String → List String
without x [] = []
without x (y ∷ ys) = if str_eq y x then without x ys else y ∷ without x ys

-- `[...new Set(xs)]`: each text where it first occurs
unfoldable pub distinct : List String → List String
unfolding without
distinct [] = []
distinct (x ∷ xs) = x ∷ without x (distinct xs)

contains-without :
    (a x : String) (xs : List String)
    → contains a (without x xs) ≡ (not (str_eq x a) && contains a xs)
unfolding contains without
contains-without a x [] = ground arith
contains-without a x (y ∷ ys) =
    ground (arith, eq_iff y x, eq_iff x a, eq_iff y a, contains-without a x ys)

pub contains-distinct : (a : String) (xs : List String) → contains a (distinct xs) ≡ contains a xs
unfolding contains distinct
contains-distinct a [] = refl
contains-distinct a (x ∷ xs) =
    ground (arith, contains-without a x (distinct xs), contains-distinct a xs)

-- No text stands in the list twice.
unfoldable pub is_nodup : List String → Bool
is_nodup [] = true
is_nodup (x ∷ xs) = not (contains x xs) && is_nodup xs

is_nodup-without :
    (x : String) (xs : List String) → is_nodup xs ≡ true → is_nodup (without x xs) ≡ true
unfolding is_nodup without
is_nodup-without x [] h = refl
is_nodup-without x (y ∷ ys) h = ground (arith, contains-without y x ys, is_nodup-without x ys)

pub is_nodup-distinct : (xs : List String) → is_nodup (distinct xs) ≡ true
unfolding is_nodup distinct
is_nodup-distinct [] = refl
is_nodup-distinct (x ∷ xs) = ground (
  arith,
  contains-without x x (distinct xs),
  str_eq_refl x,
  is_nodup-without x (distinct xs),
  is_nodup-distinct xs,
)

pub contains-append :
    (n : String) (xs ys : List String) → contains n (xs ++ ys) ≡ (contains n xs || contains n ys)
unfolding contains
contains-append n [] ys = ground arith
contains-append n (x ∷ xs) ys = ground (arith, contains-append n xs ys)

pub is_nodup-snoc :
    (xs : List String) (n : String)
    → is_nodup xs ≡ true
    → contains n xs ≡ false
    → is_nodup (xs ++ n ∷ []) ≡ true
unfolding is_nodup contains
is_nodup-snoc [] n h c = refl
is_nodup-snoc (x ∷ xs) n h c =
    ground (arith, contains-append x xs (n ∷ []), eq_iff x n, eq_iff n x, is_nodup-snoc xs n)

pub contains-filter :
    (p : String → Bool) (f : String) (xs : List String)
    → contains f (filter p xs) ≡ (p f && contains f xs)
unfolding contains
contains-filter p f [] = ground arith
contains-filter p f (x ∷ xs) = ground (arith, eq_iff x f, contains-filter p f xs)

pub is_nodup-filter :
    (p : String → Bool) (xs : List String) → is_nodup xs ≡ true → is_nodup (filter p xs) ≡ true
unfolding is_nodup
is_nodup-filter p [] h = refl
is_nodup-filter p (x ∷ xs) h = ground (arith, contains-filter p x xs, is_nodup-filter p xs)

-- Membership gives what holds of all elements, and conversely.
pub All-at :
    (P : String → Type 0) (a : String) (xs : List String) → All P xs → contains a xs ≡ true → P a
unfolding contains
All-at P a [] h c = absurd (ground (arith, c))
All-at P a (x ∷ xs) h c = elim (Bool-cases (str_eq x a)) [
  | inl hit ↦ let same : x ≡ a = ground (arith, eq_iff x a, hit) in rw (← same) h.0
  | inr miss ↦ All-at P a xs h.1 (ground (arith, miss, c))
]

pub All-from :
    (P : String → Type 0) (xs : List String)
    → ((a : String) → contains a xs ≡ true → P a)
    → All P xs
unfolding contains
All-from P [] f = tt
All-from P (x ∷ xs) f =
    (f x (ground (arith, str_eq_refl x)), All-from P xs (λ a c. f a (ground (arith, c))))
