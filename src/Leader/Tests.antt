-- ===== src/Leader/Tests.antt =====
-- The theorems on the lease at two replicas.
use the_bureau.Leader.Election.{IsLed, is_good_tick, run_elects, ticks_of}
use the_bureau.Leader.{run, step, start, renew, claim, step_down, set_elector, gain}
use the_bureau.Leader.Laws.{is_live, is_safe, run_leader_unique}
use the_bureau.Prelude.{List, String, [], false, none, refl, true, ◌∷◌, ◌≡◌, arith}
use the_bureau.Leader.{
  Elector, Event, World, claim, gain, is_owner, renew, set_elector, starts, step_down, tick, ticks,
}

abbrev follower : Elector
follower = record {
  leader = false;
  ticking = false;
  started = false;
  stopping = false;
  acquired_calls = 0;
  lost_calls = 0;
}

abbrev fresh : World
fresh = record { key = none; electors = λ id. follower }

abbrev events : List Event
events = starts false "r1" ∷ starts false "r2" ∷ ticks false "r2" ∷ []

run_leader_unique_example : ◌≡◌ {A = String} "r1" "r1"
unfolding run step start tick renew claim step_down set_elector gain is_owner is_safe is_live
run_leader_unique_example =
    run_leader_unique events "r1" "r1" fresh refl refl refl refl refl refl refl

abbrev good_ticks : List Event
good_ticks = ticks false "r1" ∷ ticks false "r2" ∷ ticks false "r1" ∷ []

run_elects_example :
    IsLed
      (run good_ticks (record { key = none; electors = λ id. record follower { leader = true } }))
unfolding is_good_tick ticks_of
run_elects_example =
    run_elects good_ticks "r1" (λ id. record follower { leader = true }) refl (λ j. refl)
      (omega arith)
