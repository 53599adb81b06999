-- ===== src/Siblings/Parallel.antt =====
-- Which overlaps src/workspace/sibling-overlap.ts reports.
use the_bureau.Registry.{footprint_overlap}
use the_bureau.Siblings.Fuel.{ancestors_of-ends}
use the_bureau.Siblings.{
  Pairs, SiblingOverlap, TaskInput, ancestors_of, by_id, compare, compare_all, compare_each,
  find_sibling_file_overlaps, is_ancestor, is_sequenced, overlap_of, see_pair, pair_key,
}
use the_bureau.Siblings.Laws.{Depends, Depends-found}
use the_bureau.Prelude.{
  Bool, Bool-cases, List, Option-cases, String, [], arith, eq_iff, false, inl, inr, is_some, refl,
  str_eq, str_eq_refl, true, ◌∷◌, ◌≡◌, All, ◌+◌, ◌==◌, All-append, contains, distinct, length,
}

-- Two tasks of which neither needs the other.
pub record AreParallel (tasks : List TaskInput) (a b : String) : Type 0 where
  pub apart : str_eq a b ≡ false
  pub forth : ¬ Depends tasks a b
  pub back : ¬ Depends tasks b a

abbrev Known : List TaskInput → TaskInput → Type 0
Known tasks t = is_some (by_id tasks t.id) ≡ true

Known-later : (t : TaskInput) (ts : List TaskInput) (u : TaskInput) → Known ts u → Known (t ∷ ts) u
unfolding by_id
Known-later t ts u h = elim (Option-cases (by_id ts u.id)) [
  | inl none_yet ↦ absurd (cc (rw none_yet at h))
  | inr (v, there) ↦ rw (there, by_id) refl
]

All-later : (t : TaskInput) (ts us : List TaskInput) → All (Known ts) us → All (Known (t ∷ ts)) us
All-later t ts [] h = tt
All-later t ts (u ∷ us) h = (Known-later t ts u h.0, All-later t ts us h.1)

All-Known : (ts : List TaskInput) → All (Known ts) ts
unfolding by_id
All-Known [] = tt
All-Known (t ∷ ts) = (first, All-later t ts ts (All-Known ts))
  where
    first : is_some (by_id (t ∷ ts) t.id) ≡ true
    first = elim (Option-cases (by_id ts t.id)) [
      | inl none_yet ↦ rw (none_yet, str_eq_refl t.id, by_id) refl
      | inr (v, there) ↦ rw (there, by_id) refl
    ]

module _ (tasks : List TaskInput) where
  not_ancestor :
      (t u : TaskInput)
      → Known tasks u
      → str_eq t.id u.id ≡ false
      → is_ancestor tasks t.id u.id ≡ false
      → ¬ Depends tasks t.id u.id
  unfolding is_ancestor
  not_ancestor t u known apart never dep = elim (Option-cases (by_id tasks u.id)) [
    | inl missing ↦ absurd (cc (rw missing at known))
    | inr (v, there) ↦ elim (Option-cases (ancestors_of tasks t.id)) [
      | inl lost_fuel ↦ absurd (cc (rw lost_fuel at (ancestors_of-ends tasks t.id)))
      | inr (out, climbed) ↦
          let yes = Depends-found tasks t.id out u.id v climbed dep there apart in
          absurd (cc (yes, rw (climbed, is_ancestor) at never))
    ]
  ]

  module _ (files_of : String → List String) (dir_of : String → String)
      (id_le : String → String → Bool) where
    abbrev Reported : SiblingOverlap → Type 0
    Reported o = AreParallel tasks o.a o.b

    see_pair-Reported :
        (t u : TaskInput) (p : Pairs)
        → AreParallel tasks t.id u.id
        → All Reported p.overlaps
        → All Reported (see_pair files_of dir_of id_le tasks t u p).overlaps
    unfolding see_pair overlap_of
    see_pair-Reported t u p ok h =
        let o =
          footprint_overlap dir_of (distinct (files_of t.task)) (distinct (files_of u.task)) in
        elim (Bool-cases (contains (pair_key t.id u.id) p.seen)) [
          | inl old ↦ rw (old, see_pair) h
          | inr new ↦ elim (Bool-cases (length o.exact + length o.dir == 0)) [
            | inl disjoint ↦ rw (new, disjoint, see_pair, overlap_of) h
            | inr common ↦
                rw (new, common, see_pair, overlap_of) (All-append Reported p.overlaps _ h (ok, tt))
          ]
        ]

    compare-Reported :
        (t u : TaskInput) (p : Pairs)
        → Known tasks t
        → Known tasks u
        → All Reported p.overlaps
        → All Reported (compare files_of dir_of id_le tasks t u p).overlaps
    unfolding compare is_sequenced
    compare-Reported t u p kt ku h = elim (Bool-cases (str_eq t.id u.id)) [
      | inl twins ↦ rw (twins, compare) h
      | inr apart ↦ elim (Bool-cases (is_ancestor tasks t.id u.id)) [
        | inl above ↦ rw (apart, above, compare) h
        | inr not_above ↦ elim (Bool-cases (is_ancestor tasks u.id t.id)) [
          | inl below ↦ rw (apart, not_above, below, compare) h
          | inr not_below ↦
              let turned : str_eq u.id t.id ≡ false =
                ground (arith, eq_iff t.id u.id, eq_iff u.id t.id, apart) in
              let forth = not_ancestor t u ku apart not_above in
              let back = not_ancestor u t kt turned not_below in
              elim (Bool-cases (id_le t.id u.id)) [
                | inl smaller ↦
                    rw (apart, not_above, not_below, smaller, compare)
                      (see_pair-Reported t u p
                        (record { apart = apart; forth = forth; back = back }) h)
                | inr larger ↦
                    rw (apart, not_above, not_below, larger, compare)
                      (see_pair-Reported u t p
                        (record { apart = turned; forth = back; back = forth }) h)
              ]
        ]
      ]
    ]

    compare_each-Reported :
        (t : TaskInput) (us : List TaskInput) (p : Pairs)
        → Known tasks t
        → All (Known tasks) us
        → All Reported p.overlaps
        → All Reported (compare_each files_of dir_of id_le tasks t us p).overlaps
    unfolding compare_each
    compare_each-Reported t [] p kt ks h = h
    compare_each-Reported t (u ∷ us) p kt ks h =
        compare_each-Reported t us _ kt ks.1 (compare-Reported t u p kt ks.0 h)

    compare_all-Reported :
        (ts : List TaskInput) (p : Pairs)
        → All (Known tasks) ts
        → All Reported p.overlaps
        → All Reported (compare_all files_of dir_of id_le tasks ts p).overlaps
    unfolding compare_all
    compare_all-Reported [] p ks h = h
    compare_all-Reported (t ∷ ts) p ks h =
        compare_all-Reported ts _ ks.1 (compare_each-Reported t ts p ks.0 ks.1 h)

    -- Of the two tasks of a reported overlap, which differ, neither depends on the other, at once
    -- or through other tasks; so it is on every list of tasks, also a cyclic one.
    pub find_sibling_file_overlaps-All :
        All
          (λ o. AreParallel tasks o.a o.b)
          (find_sibling_file_overlaps files_of dir_of id_le tasks)
    unfolding find_sibling_file_overlaps
    find_sibling_file_overlaps-All = compare_all-Reported tasks _ (All-Known tasks) tt
