-- ===== src/Yield/Laws.antt =====
-- What the resolution of yields in src/workspace/yield.ts guarantees.
use mathlib.Core.List.{Memᴰ}
use the_bureau.Yield.{
  before, first_of, place, sorted, Intents, no_conflict, select_force_proceeder,
  should_auto_resolve, has_overlap, overlaps, proceed, wait, file_count, has_commit,
}
use the_bureau.Graph.Types.{YieldContext}
use the_bureau.Prelude.{
  List, arith, false, true, ◌≡◌, All, Bool, Bool-cases, [], if◌then◌else◌, inl, inr, refl, some,
  sym, ◌∙◌, ◌∷◌, String, any, contains, get_or, ◌==◌, Option, length, none, not, ◌<◌, ltb, ℕ, ◌≤◌,
  ◌⊎◌,
}

-- The first of a sorted list is one of the given yields, and none of them goes before it.
pub IsBest : List YieldContext → YieldContext → Type 0
IsBest ys w = All (λ y. before y w ≡ false) ys

before_trans : (x y z : YieldContext) → before y x ≡ false → before z y ≡ false → before z x ≡ false
unfolding before
before_trans x y z h k = ground arith

before_asym : (x y : YieldContext) → before y x ≡ true → before x y ≡ false
unfolding before
before_asym x y h = ground arith

before_irrefl : (x : YieldContext) → before x x ≡ false
unfolding before
before_irrefl x = ground arith

-- The first of a list goes before nothing that is placed behind it.
place-first :
    (x h : YieldContext) (ys : List YieldContext)
    → first_of ys ≡ some h
    → first_of (place x ys) ≡ (if before h x then some h else some x)
unfolding place first_of
place-first x h [] e = cc
place-first x h (y ∷ ys) e = let same_first : y ≡ h = cc e in rw (sym same_first) (go (before y x))
  where
    go :
        (b : Bool)
        → first_of (if b then y ∷ place x ys else x ∷ y ∷ ys) ≡ (if b then some y else some x)
    go true = refl
    go false = refl

weaken :
    (x h : YieldContext) (ys : List YieldContext) → before h x ≡ false → IsBest ys h → IsBest ys x
unfolding IsBest
weaken x h [] k best = tt
weaken x h (y ∷ ys) k best = (before_trans x h y k best.0, weaken x h ys k best.1)

-- Some given yield is first, is one of them, and none of them goes before it.
pub record IsFirst (ys : List YieldContext) (w : YieldContext) : Type 0 where
  pub here : first_of (sorted ys) ≡ some w
  pub given : Memᴰ w ys
  pub best : All (λ y. before y w ≡ false) ys

sorted-IsFirst :
    (y : YieldContext) (ys : List YieldContext) → (w : YieldContext) × IsFirst (y ∷ ys) w
unfolding sorted first_of place IsBest
sorted-IsFirst y [] =
    (y, record { here = refl; given = Memᴰ.head refl; best = (before_irrefl y, tt) })
sorted-IsFirst y (z ∷ zs) =
    let ih = sorted-IsFirst z zs in
    let first = place-first y ih.0 (sorted (z ∷ zs)) ih.1.here in
    elim (Bool-cases (before ih.0 y)) [
      | inl ahead ↦ (
        ih.0,
        record {
          here = first ∙ rw ahead refl;
          given = Memᴰ.tail ih.1.given;
          best = (before_asym y ih.0 ahead, ih.1.best);
        },
      )
      | inr behind ↦ (
        y,
        record {
          here = first ∙ rw behind refl;
          given = Memᴰ.head refl;
          best = (before_irrefl y, weaken y ih.0 (z ∷ zs) behind ih.1.best);
        },
      )
    ]

All-map :
    {A : Type 0} (P Q : A → Type 0) (xs : List A) → ((x : A) → P x → Q x) → All P xs → All Q xs
All-map P Q [] f h = tt
All-map P Q (x ∷ xs) f h = (f x h.0, All-map P Q xs f h.1)

-- The yield `w` has a commit and `z` has none, or they are alike in that and `w` has more files,
-- or as many and is not later.
pub IsNotBehind : YieldContext → YieldContext → Type 0
IsNotBehind w z =
    (has_commit z < has_commit w)
    ⊎ ((has_commit z ≡ has_commit w)
        × ((file_count z < file_count w)
            ⊎ ((file_count z ≡ file_count w) × (w.yielded_at ≤ z.yielded_at))))

before-IsNotBehind : (w z : YieldContext) → before z w ≡ false → IsNotBehind w z
unfolding before IsNotBehind
before-IsNotBehind w z h = go (has_commit z) (has_commit w) (file_count z) (file_count w) h
  where
    go :
        (cz cw fz fw : ℕ)
        → (if not (cz == cw)
            then ltb cw cz
            else if not (fz == fw)
            then ltb fw fz
            else ltb z.yielded_at w.yielded_at)
          ≡ false
        → (cz < cw) ⊎ ((cz ≡ cw) × ((fz < fw) ⊎ ((fz ≡ fw) × (w.yielded_at ≤ z.yielded_at))))
    go cz cw fz fw h = ground (arith, h)

-- Of one yield or more, the one selected to go on is one of those given, and it is behind none of
-- them: it has a commit where the other has none; or both or neither has one, and it has more
-- files, or as many and is not later.
pub select_force_proceeder_best :
    (y : YieldContext) (ys : List YieldContext)
    → (w : YieldContext) × (select_force_proceeder (y ∷ ys) ≡ some w.task_id)
      × Memᴰ w (y ∷ ys)
      × All (IsNotBehind w) (y ∷ ys)
unfolding select_force_proceeder
select_force_proceeder_best y ys =
    let f = sorted-IsFirst y ys in
    (
      f.0,
      rw (f.1.here, select_force_proceeder) refl,
      f.1.given,
      All-map (λ z. before z f.0 ≡ false) (IsNotBehind f.0) (y ∷ ys)
          (λ z h. before-IsNotBehind f.0 z h) f.1.best,
    )

any-All : {A : Type 0} (p : A → Bool) (xs : List A) → any p xs ≡ false → All (λ x. p x ≡ false) xs
any-All p [] h = tt
any-All p (x ∷ xs) h = (ground (arith, h), any-All p xs (ground (arith, h)))

not_overlapping :
    (mine : List String) (files : Option (List String))
    → overlaps mine files ≡ false
    → All (λ f. contains f mine ≡ false) (get_or files [])
unfolding overlaps
not_overlapping mine none h = tt
not_overlapping mine (some files) h = any-All (λ f. contains f mine) files h

overlaps-nothing : (files : Option (List String)) → overlaps [] files ≡ false
unfolding overlaps contains
overlaps-nothing none = refl
overlaps-nothing (some []) = refl
overlaps-nothing (some (f ∷ fs)) = overlaps-nothing (some fs)

has_overlap-nothing :
    (intents : Intents) (agents : List String) → has_overlap intents [] agents ≡ false
unfolding has_overlap
has_overlap-nothing intents [] = refl
has_overlap-nothing intents (a ∷ agents) =
    ground (arith, overlaps-nothing (intents a), has_overlap-nothing intents agents)

no_conflict-no_overlap :
    (intents : Intents) (y : YieldContext) (id : String) (is_worktree : Bool)
    → should_auto_resolve intents y id is_worktree ≡ no_conflict
    → has_overlap intents (get_or (intents id) []) y.agents ≡ false
unfolding should_auto_resolve
no_conflict-no_overlap intents y id is_worktree h = go (get_or (intents id) []) h
  where
    go :
        (mine : List String)
        → (if length mine == 0
            then no_conflict
            else if not (has_overlap intents mine y.agents)
            then no_conflict
            else if is_worktree
            then proceed
            else wait)
          ≡ no_conflict
        → has_overlap intents mine y.agents ≡ false
    go [] h = has_overlap-nothing intents y.agents
    go (f ∷ fs) h = ground (arith, h)

-- A yield that is resolved as free of conflict shares no file with what the yielding task means
-- to edit, for any of the tasks that it yielded to.
pub no_conflict-has_no_overlap :
    (intents : Intents) (y : YieldContext) (id : String) (is_worktree : Bool)
    → should_auto_resolve intents y id is_worktree ≡ no_conflict
    → All
        (λ a. All (λ f. contains f (get_or (intents id) []) ≡ false) (get_or (intents a) []))
        y.agents
unfolding has_overlap
no_conflict-has_no_overlap intents y id is_worktree h =
    All-map _ _ y.agents (λ a. not_overlapping (get_or (intents id) []) (intents a))
      (any-All _ y.agents (no_conflict-no_overlap intents y id is_worktree h))
