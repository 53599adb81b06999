-- ===== src/Completion/Reconcile/Scanned.antt =====
-- What the scan of the validation children in src/task-graph.ts lets through.
use the_bureau.Graph.Types.{TaskGraph}
use the_bureau.Completion.Reconcile.{
  Scan, child_has_failed, child_is_over, fail_with, scan_child, scan_children,
}
use the_bureau.Prelude.{
  ◌&&◌, Bool, Bool-cases, List, Option, String, [], all, false, inl, inr, none, not, refl, some,
  true, ◌∷◌, ◌≡◌,
}

-- The child is there, over, and has not failed.
unfoldable pub has_passed : Option TaskGraph → Bool
has_passed none = false
has_passed (some c) = child_is_over c.status && not (child_has_failed c.status)

-- A child that has not passed leaves a mark, and no child takes one away.
scan_child-passed :
    (o : Option TaskGraph) (scan : Scan)
    → (scan_child o scan).all_passed ≡ true
    → (scan_child o scan).any_running ≡ false
    → (has_passed o ≡ true) × (scan.all_passed ≡ true) × (scan.any_running ≡ false)
unfolding scan_child has_passed fail_with
scan_child-passed none scan p q = absurd (cc p)
scan_child-passed (some c) scan p q = elim (Bool-cases (child_is_over c.status)) [
  | inr still_open ↦ absurd (cc (rw still_open at q))
  | inl over ↦ elim (Bool-cases (child_has_failed c.status)) [
    | inl bad ↦ absurd (cc (rw (over, bad) at p))
    | inr good ↦ (rw (over, good) refl, rw (over, good) at p, rw (over, good) at q)
  ]
]

pub scan_children-passed :
    (graphs : String → Option TaskGraph) (ids : List String) (scan : Scan)
    → (scan_children graphs ids scan).all_passed ≡ true
    → (scan_children graphs ids scan).any_running ≡ false
    → (all (λ id. has_passed (graphs id)) ids ≡ true)
      × (scan.all_passed ≡ true)
      × (scan.any_running ≡ false)
unfolding scan_children
scan_children-passed graphs [] scan p q = (refl, p, q)
scan_children-passed graphs (id ∷ ids) scan p q =
    let rest = scan_children-passed graphs ids (scan_child (graphs id) scan) p q in
    let this = scan_child-passed (graphs id) scan rest.1 rest.2 in
    (rw (this.0) rest.0, this.1, this.2)
