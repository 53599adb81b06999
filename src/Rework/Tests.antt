-- ===== src/Rework/Tests.antt =====
-- The theorems on the rework loop at the sample graph, which asks for five attempts.
use the_bureau.Graph.Store.{expire, Expiry}
use the_bureau.Graph.Samples.{sample_env, sample_graph, sample_store}
use the_bureau.Rework.Pin.Laws.{check_head_pin_iff, validation_pin_guards}
use the_bureau.Rework.{
  can_rework, check_budget, depth_from, enter_rework_round, get_graph_depth, get_rework_count,
  refused, rework_eligibility, win_round,
}
use the_bureau.Graph.Store.{Store, return, call}
use the_bureau.Graph.Types.{Round, TaskGraph, GraphStatus}
use the_bureau.Rework.Pin.{
  HeadReader, answers, capture_integration_head_for_pin, check_head_pin,
  check_validation_dispatch_pin, passes, persist_validation_dispatch_head, read_integration_head,
  Reading,
}
use the_bureau.Rework.Budget.{
  Entry, enter, enter_all, enter_all_bounded, entry_keeps_baseline, second_entry_refused,
}
use the_bureau.Rework.Eligibility.{IsFit, rework_eligibility_fits}
use the_bureau.Prelude.{
  ◌==◌, Option, String, [], arith, contains, if◌then◌else◌, none, refl, some, ◌↔◌, ◌∷◌, ◌≡◌, ◌≢◌,
  ◌≤◌, ◌⊎◌, true,
}

abbrev entry : Entry
entry = record {
  env = sample_env;
  start_head = "abc";
  graph = sample_graph;
  failure = none;
  reason = "test_failure";
  fix_role = "debugger";
}

abbrev round_one : Round
round_one = record {
  attempt = 1;
  start_head = "abc";
  baseline_head = some "base";
  entered_at = 10;
  validation_child_ids = [];
  failure = none;
  revalidation_head = none;
}

abbrev in_round_one : TaskGraph
in_round_one = record sample_graph { current_round = some round_one }

abbrev store_in_round : Store
store_in_round = record sample_store { graph = some in_round_one }

abbrev reader : Option HeadReader
reader = some (record {
  get_integration_head = some (λ g d n. if n == 0 then Reading.fails else answers (some "abc"));
})

enter_all_bounded_example : get_rework_count (enter_all 3 (entry ∷ entry ∷ []) sample_store) ≤ 3
unfolding get_rework_count
enter_all_bounded_example = enter_all_bounded 3 (entry ∷ entry ∷ []) sample_store (omega arith)

abbrev other_keys : Expiry
other_keys = record {
  locks = λ id. true;
  completion_locks = λ n. true;
  rework_claims = λ n. n == 7;
}

second_entry_refused_example :
    ((enter 3 entry (expire other_keys (enter 3 entry sample_store).1)).0 ≡ return refused)
    × (get_rework_count (enter 3 entry (expire other_keys (enter 3 entry sample_store).1)).1
        ≡ get_rework_count (enter 3 entry sample_store).1)
    × ((enter 3 entry (expire other_keys (enter 3 entry sample_store).1)).1.graph
        ≡ (enter 3 entry sample_store).1.graph)
unfolding enter_rework_round can_rework win_round call
second_entry_refused_example =
    second_entry_refused 3 entry entry other_keys sample_store refl refl refl

entry_keeps_baseline_example :
    (g' : TaskGraph) × (r' : Round) × ((enter 3
        (record entry { graph = in_round_one })
        store_in_round).1.graph
      ≡ some g')
    × (g'.current_round ≡ some r')
    × (g'.status ≡ GraphStatus.reworking)
    × (r'.attempt ≡ 2)
    × (r'.baseline_head ≡ some "base")
unfolding enter_rework_round can_rework win_round call
entry_keeps_baseline_example =
    entry_keeps_baseline 3 (record entry { graph = in_round_one }) store_in_round in_round_one
      round_one "base" refl refl refl refl

rework_eligibility_fits_example :
    IsFit
      (λ id. some sample_graph)
      sample_graph
      "test_failure"
      (record { max_attempts = 3; fix_role = "debugger" })
unfolding rework_eligibility check_budget get_graph_depth depth_from contains
rework_eligibility_fits_example =
    rework_eligibility_fits (λ id. some sample_graph) sample_graph "test_failure"
      (record { max_attempts = 3; fix_role = "debugger" }) refl

check_head_pin_iff_example : (check_head_pin (some "abc") (some "abc") ≡ passes) ↔ (
    (◌≡◌ {A = Option String} (some "abc") none)
    ⊎ ((head : String) × (◌≡◌ {A = Option String} (some "abc") (some head))
        × (head ≢ "")
        × ((◌≡◌ {A = Option String} (some "abc") none)
            ⊎ (◌≡◌ {A = Option String} (some "abc") (some ""))
            ⊎ (◌≡◌ {A = Option String} (some "abc") (some head)))))
check_head_pin_iff_example = check_head_pin_iff (some "abc") (some "abc")

validation_pin_guards_example :
    (◌≢◌ {A = String} "abc" "")
    × ((read_integration_head reader "g" none 0 ≡ "abc")
        ⊎ (read_integration_head reader "g" none 1 ≡ "abc"))
    × ((read_integration_head reader "g" none 7 ≡ "")
        ⊎ (read_integration_head reader "g" none 7 ≡ "abc"))
unfolding capture_integration_head_for_pin read_integration_head check_validation_dispatch_pin
    persist_validation_dispatch_head check_head_pin
validation_pin_guards_example =
    validation_pin_guards reader sample_store sample_graph "abc" 0 7 refl refl refl
