-- ===== src/Rework/Pin/Laws.antt =====
-- What the pin of src/rework/sha-pin.ts guards against.
use the_bureau.Graph.Types.{TaskGraph}
use the_bureau.Graph.Store.{Store}
use the_bureau.Rework.Pin.{
  HeadReader, capture_integration_head_for_pin, check_head_pin, passes, read_integration_head,
  Reading, check_validation_dispatch_pin, persist_validation_dispatch_head,
}
use the_bureau.Prelude.{
  ◌+◌, Option, String, arith, eq_iff, inl, inr, none, refl, some, ℕ, ◌↔◌, ◌≡◌, ◌≢◌, ◌⊎◌,
}

-- The promotion may go on exactly if no pin was recorded, or a head was captured and the live
-- head is unknown or the captured one: a capture that failed refuses.
pub check_head_pin_iff :
    (pin live : Option String)
    → (check_head_pin pin live ≡ passes) ↔ (
        (pin ≡ none)
        ⊎ ((head : String) × (pin ≡ some head)
            × (head ≢ "")
            × ((live ≡ none) ⊎ (live ≡ some "") ⊎ (live ≡ some head))))
unfolding check_head_pin
check_head_pin_iff none live = (λ h. inl refl, λ h. refl)
check_head_pin_iff (some pin) none = (
  λ h. inr (pin, refl, ground (arith, eq_iff pin ""), inl refl),
  λ h. ground (arith, eq_iff pin "", h),
)
check_head_pin_iff (some pin) (some live) = (
  λ h. inr (
    pin,
    refl,
    ground (arith, h, eq_iff pin ""),
    inr (ground (arith, h, eq_iff live "", eq_iff pin live)),
  ),
  λ h. ground (arith, eq_iff pin "", eq_iff live "", eq_iff pin live, h),
)

-- A capture is "" only if two calls of the hook gave no head, and otherwise what one of them gave.
capture_answers :
    (hooks : Option HeadReader) (graph_id : String) (dest : Option String) (n : ℕ) (head : String)
    → capture_integration_head_for_pin hooks graph_id dest n ≡ some head
    → (read_integration_head hooks graph_id dest n ≡ head)
      ⊎ ((read_integration_head hooks graph_id dest n ≡ "")
          × (read_integration_head hooks graph_id dest (n + 1) ≡ head))
unfolding capture_integration_head_for_pin
capture_answers none graph_id dest n head h = cc
capture_answers (some hooks) graph_id dest n head h = go hooks.get_integration_head refl
  where
    go :
        (r : Option (String → Option String → ℕ → Reading))
        → hooks.get_integration_head ≡ r
        → (read_integration_head (some hooks) graph_id dest n ≡ head)
          ⊎ ((read_integration_head (some hooks) graph_id dest n ≡ "")
              × (read_integration_head (some hooks) graph_id dest (n + 1) ≡ head))
    go none e = absurd (cc (rw e at h))
    go (some r) e =
        ground (arith, rw e at h, eq_iff (read_integration_head (some hooks) graph_id dest n) "")

-- The head captured at the dispatch of a validation and recorded on the graph lets the promotion
-- pass later only if it is not empty, hence one that a call of the hook gave, and if the live
-- head is then unknown or still the captured one.
pub validation_pin_guards :
    (hooks : Option HeadReader) (s : Store) (g : TaskGraph) (head : String) (n later : ℕ)
    → s.graph ≡ some g
    → capture_integration_head_for_pin hooks s.graph_id g.destination n ≡ some head
    → check_validation_dispatch_pin hooks s.graph_id
        (persist_validation_dispatch_head (some head) s).1.graph
        later
      ≡ passes
    → (head ≢ "")
      × ((read_integration_head hooks s.graph_id g.destination n ≡ head)
          ⊎ (read_integration_head hooks s.graph_id g.destination (n + 1) ≡ head))
      × ((read_integration_head hooks s.graph_id g.destination later ≡ "")
          ⊎ (read_integration_head hooks s.graph_id g.destination later ≡ head))
unfolding check_validation_dispatch_pin persist_validation_dispatch_head check_head_pin
validation_pin_guards hooks s g head n later has captured ok =
    let live = read_integration_head hooks s.graph_id g.destination later in
    let ok' = rw has at ok in
    (
      ground (arith, ok', eq_iff head ""),
      ground (arith, capture_answers hooks s.graph_id g.destination n head captured),
      ground (arith, ok', eq_iff live "", eq_iff head live),
    )
