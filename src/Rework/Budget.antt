-- ===== src/Rework/Budget.antt =====
-- What bounds the auto-rework loop of src/task-graph.ts and src/rework-manager.ts.
use the_bureau.Graph.Store.{expire}
use the_bureau.Graph.Env.{Env}
use the_bureau.Graph.Store.{Store, return, call, Result, Expiry}
use the_bureau.Prelude.{
  Option, String, arith, false, inl, inr, some, true, ℕ, ◌≡◌, ◌≤◌, ◌+◌, ◌<◌, Bool-cases, get_or,
  ◌∷◌, ◌⊎◌, refl, length-append, List, [],
}
use the_bureau.Graph.Types.{TaskGraph, ValidationFailure, rework_exhausted, reworking, Round}
use the_bureau.Rework.{
  refused, next_attempt, can_rework, enter_rework_round, get_rework_count, record_rejection,
  win_round, handed_over, new_round, claim_round, write_round, Entered,
}

spent_log : (m : ℕ) (s : Store) → can_rework m s ≡ false → m ≤ get_rework_count s
unfolding can_rework get_rework_count
spent_log m s h = ground (arith, h)

left_log : (m : ℕ) (s : Store) → can_rework m s ≡ true → get_rework_count s < m
unfolding can_rework get_rework_count
left_log m s h = ground (arith, h)

-- The graph's record after a round that began with `start_head` has been entered.
abbrev pub in_round :
    Env → String → TaskGraph → Option ValidationFailure → Option TaskGraph → TaskGraph
in_round env start_head g failure stored = record (get_or stored g) {
  status = reworking;
  current_round = some (new_round env.now (next_attempt g) start_head (get_or stored g) failure);
}

module _ (env : Env) (start_head : String) (g : TaskGraph) (failure : Option ValidationFailure)
    (reason fix_role : String) (m : ℕ) (s : Store) where
  -- The budget was left and the round not claimed; one rejection is recorded, the round is
  -- claimed, and the graph is in the new round.
  pub record IsWon (after : Store) : Type 0 where
    pub left : get_rework_count s < m
    pub unclaimed : s.rework_claims (next_attempt g) ≡ false
    pub counted : get_rework_count after ≡ get_rework_count s + 1
    pub claimed : after.rework_claims (next_attempt g) ≡ true
    pub graph : after.graph ≡ some (in_round env start_head g failure s.graph)

  won :
      can_rework m s ≡ true
      → s.rework_claims (next_attempt g) ≡ false
      → ((enter_rework_round env start_head g failure reason fix_role m s).0 ≡ return handed_over)
        × IsWon (enter_rework_round env start_head g failure reason fix_role m s).1
  unfolding enter_rework_round win_round get_rework_count claim_round record_rejection write_round
      call
  won left unclaimed = elim (Bool-cases env.has_registry) [
    | inl here ↦ (
      rw (left, unclaimed, here) refl,
      rw (left, unclaimed, here)
          (record {
            left = left_log m s left;
            unclaimed = unclaimed;
            counted = length-append s.rework_log _;
            claimed = ground arith;
            graph = refl;
          }),
    )
    | inr missing ↦ (
      rw (left, unclaimed, missing) refl,
      rw (left, unclaimed, missing)
          (record {
            left = left_log m s left;
            unclaimed = unclaimed;
            counted = length-append s.rework_log _;
            claimed = ground arith;
            graph = refl;
          }),
    )
  ]

  pub enter_rework_round_outcome :
      ((enter_rework_round env start_head g failure reason fix_role m s
          ≡ (return refused, record s { effects = rework_exhausted fix_role ∷ s.effects }))
        × (m ≤ get_rework_count s))
      ⊎ ((enter_rework_round env start_head g failure reason fix_role m s ≡ (return refused, s))
          × (s.rework_claims (next_attempt g) ≡ true))
      ⊎ (((enter_rework_round env start_head g failure reason fix_role m s).0 ≡ return handed_over)
          × IsWon (enter_rework_round env start_head g failure reason fix_role m s).1)
  unfolding enter_rework_round get_rework_count call
  enter_rework_round_outcome = elim (Bool-cases (can_rework m s)) [
    | inr spent ↦ inl (rw spent refl, spent_log m s spent)
    | inl left ↦ elim (Bool-cases (s.rework_claims (next_attempt g))) [
      | inl taken ↦ inr (inl (rw (left, taken) refl, taken))
      | inr unclaimed ↦ inr (inr (won left unclaimed))
    ]
  ]

-- One call of `enterReworkRound`; the graph that it was handed may be stale.
pub record Entry : Type 0 where
  pub env : Env
  pub start_head : String
  pub graph : TaskGraph
  pub failure : Option ValidationFailure
  pub reason : String
  pub fix_role : String

abbrev pub enter : ℕ → Entry → Store → Result Entered × Store
enter m e s = enter_rework_round e.env e.start_head e.graph e.failure e.reason e.fix_role m s

pub enter_all : ℕ → List Entry → Store → Store
enter_all m [] s = s
enter_all m (e ∷ es) s = enter_all m es (enter m e s).1

enter-bounded :
    (m : ℕ) (e : Entry) (s : Store) → get_rework_count s ≤ m → get_rework_count (enter m e s).1 ≤ m
unfolding get_rework_count
enter-bounded m e s h =
    elim (enter_rework_round_outcome e.env e.start_head e.graph e.failure e.reason e.fix_role m s) [
      | inl spent ↦ rw spent.0 h
      | inr (inl taken) ↦ rw taken.0 h
      | inr (inr (answer, w)) ↦ omega (arith, w.left, w.counted)
    ]

-- However often a round is entered, with whatever graphs, failures and reasons, the rejections
-- recorded stay within the budget `m`.
pub enter_all_bounded :
    (m : ℕ) (es : List Entry) (s : Store)
    → get_rework_count s ≤ m
    → get_rework_count (enter_all m es s) ≤ m
unfolding enter_all
enter_all_bounded m [] s h = h
enter_all_bounded m (e ∷ es) s h = enter_all_bounded m es (enter m e s).1 (enter-bounded m e s h)

claimed-is_refused :
    (m : ℕ) (e : Entry) (s : Store)
    → s.rework_claims (next_attempt e.graph) ≡ true
    → ((enter m e s).0 ≡ return refused)
      × (get_rework_count (enter m e s).1 ≡ get_rework_count s)
      × ((enter m e s).1.graph ≡ s.graph)
unfolding get_rework_count
claimed-is_refused m e s taken =
    elim (enter_rework_round_outcome e.env e.start_head e.graph e.failure e.reason e.fix_role m s) [
      | inl spent ↦ rw spent.0 (refl, refl, refl)
      | inr (inl again) ↦ rw again.0 (refl, refl, refl)
      | inr (inr (answer, w)) ↦ absurd (cc (taken, w.unclaimed))
    ]

-- Of two entries with the same graph record, the second is refused if the first has won and its
-- claim has not run out meanwhile, whatever other keys have: it consumes no budget and leaves the
-- graph as it is.
pub second_entry_refused :
    (m : ℕ) (e again : Entry) (x : Expiry) (s : Store)
    → again.graph ≡ e.graph
    → x.rework_claims (next_attempt e.graph) ≡ false
    → (enter m e s).0 ≡ return handed_over
    → ((enter m again (expire x (enter m e s).1)).0 ≡ return refused)
      × (get_rework_count (enter m again (expire x (enter m e s).1)).1
          ≡ get_rework_count (enter m e s).1)
      × ((enter m again (expire x (enter m e s).1)).1.graph ≡ (enter m e s).1.graph)
unfolding expire get_rework_count
second_entry_refused m e again x s eq_graph lasts first =
    elim (enter_rework_round_outcome e.env e.start_head e.graph e.failure e.reason e.fix_role m s) [
      | inl spent ↦ absurd (cc (rw spent.0 at first))
      | inr (inl taken) ↦ absurd (cc (rw taken.0 at first))
      | inr (inr (answer, w)) ↦
          claimed-is_refused m again (expire x (enter m e s).1)
            (rw (eq_graph, w.claimed, lasts) refl)
    ]

-- A won entry of a graph whose stored record is in a round with a baseline head puts it into the
-- next attempt with status `reworking`, and the new round keeps that baseline.
pub entry_keeps_baseline :
    (m : ℕ) (e : Entry) (s : Store) (stored : TaskGraph) (r : Round) (base : String)
    → s.graph ≡ some stored
    → stored.current_round ≡ some r
    → r.baseline_head ≡ some base
    → (enter m e s).0 ≡ return handed_over
    → (g' : TaskGraph) × (r' : Round) × ((enter m e s).1.graph ≡ some g')
      × (g'.current_round ≡ some r')
      × (g'.status ≡ reworking)
      × (r'.attempt ≡ next_attempt e.graph)
      × (r'.baseline_head ≡ some base)
entry_keeps_baseline m e s stored r base has at_round has_base first =
    elim (enter_rework_round_outcome e.env e.start_head e.graph e.failure e.reason e.fix_role m s) [
      | inl spent ↦ absurd (cc (rw spent.0 at first))
      | inr (inl taken) ↦ absurd (cc (rw taken.0 at first))
      | inr (inr (answer, w)) ↦ (
        in_round e.env e.start_head e.graph e.failure s.graph,
        new_round e.env.now (next_attempt e.graph) e.start_head (get_or s.graph e.graph) e.failure,
        w.graph,
        refl,
        refl,
        refl,
        rw (has, at_round, has_base) refl,
      )
    ]
