-- ===== src/Leader/Election.antt =====
-- That a leader is found after the lease of src/engine/leader.ts has run out.
use mathlib.Core.Path.{subst}
use the_bureau.Leader.{run, step, end_stops}
use the_bureau.Leader.{
  Event, World, claim, expires, gain, is_owner, lose, renew, set_elector, starts, stops, tick,
  ticks, Elector,
}
use the_bureau.Prelude.{
  Bool, List, String, [], arith, if◌then◌else◌, eq_iff, false, not, str_eq, suc, true, ℕ, ◌∷◌, ◌≡◌,
  Bool-cases, Option, all, inl, inr, none, some, str_eq_refl, ◌≤◌, ◌⊎◌, sym,
}

-- Some replica leads as the owner of the key.
pub record IsLed (w : World) : Type 0 where
  pub id : String
  pub leads : (w.electors id).leader ≡ true
  pub owns : is_owner id w.key ≡ true

-- The event is a tick that Redis answers.
unfoldable pub is_good_tick : Event → Bool
is_good_tick (ticks f id) = not f
is_good_tick (starts f id) = false
is_good_tick (stops f id) = false
is_good_tick (end_stops id) = false
is_good_tick expires = false

unfoldable pub ticks_of : String → List Event → ℕ
ticks_of i [] = 0
ticks_of i (ticks f id ∷ es) = if str_eq id i then suc (ticks_of i es) else ticks_of i es
ticks_of i (starts f id ∷ es) = ticks_of i es
ticks_of i (stops f id ∷ es) = ticks_of i es
ticks_of i (end_stops id ∷ es) = ticks_of i es
ticks_of i (expires ∷ es) = ticks_of i es

-- Ticks do not leave a replica in the middle of one.
tick-idle :
    (id j : String) (w : World)
    → ((j : String) → (w.electors j).ticking ≡ false)
    → ((tick false id w).electors j).ticking ≡ false
unfolding tick renew claim set_elector gain lose
tick-idle id j w idle = ground (arith, idle j, idle id, eq_iff id j)

-- A tick leaves a led world led, by the same replica.
still_leads :
    (id j : String) (key : Option String) (es : String → Elector)
    → (es id).ticking ≡ false
    → (es j).leader ≡ true
    → is_owner j key ≡ true
    → (((tick false id (record { key = key; electors = es })).electors j).leader ≡ true)
      × (is_owner j (tick false id (record { key = key; electors = es })).key ≡ true)
unfolding tick renew claim set_elector gain lose is_owner
still_leads id j none es idle leads owns = cc
still_leads id j (some k) es idle leads owns = (
  ground (arith, eq_iff id j, eq_iff k j, eq_iff k id),
  ground (arith, eq_iff id j, eq_iff k j, eq_iff k id),
)

tick-IsLed :
    (id : String) (w : World) → (w.electors id).ticking ≡ false → IsLed w → IsLed (tick false id w)
tick-IsLed id w idle led =
    let still = still_leads id led.id w.key w.electors idle led.leads led.owns in
    record { id = led.id; leads = still.0; owns = still.1 }

-- With the key free, a tick of a follower makes it the leader, and one of a leader a follower.
free_tick :
    (id : String) (es : String → Elector)
    → (es id).ticking ≡ false
    → IsLed (tick false id (record { key = none; electors = es }))
      ⊎ (((tick false id (record { key = none; electors = es })).key ≡ none)
          × ((es id).leader ≡ true)
          × (((tick false id (record { key = none; electors = es })).electors id).leader ≡ false)
          × ((j : String)
              → str_eq id j ≡ false
              → ((tick false id (record { key = none; electors = es })).electors j).leader
                ≡ (es j).leader))
unfolding tick renew claim set_elector gain lose is_owner
free_tick id es idle = elim (Bool-cases (es id).leader) [
  | inl leads ↦ inr (
    ground (arith, idle, leads),
    leads,
    ground (arith, idle, leads, str_eq_refl id),
    λ j other. ground (arith, idle, leads, other),
  )
  | inr follows ↦ inl (record {
    id = id;
    leads = ground (arith, idle, follows, str_eq_refl id);
    owns = ground (arith, idle, follows, str_eq_refl id);
  })
]

IsLed-forever :
    (es : List Event) (w : World)
    → all is_good_tick es ≡ true
    → ((j : String) → (w.electors j).ticking ≡ false)
    → IsLed w
    → IsLed (run es w)
unfolding run is_good_tick step
IsLed-forever [] w good idle led = led
IsLed-forever (ticks true id ∷ es) w good idle led = cc
IsLed-forever (ticks false id ∷ es) w good idle led =
    IsLed-forever es (tick false id w) (ground arith) (λ j. tick-idle id j w idle)
      (tick-IsLed id w (idle id) led)
IsLed-forever (starts f id ∷ es) w good idle led = cc
IsLed-forever (stops f id ∷ es) w good idle led = cc
IsLed-forever (end_stops id ∷ es) w good idle led = cc
IsLed-forever (expires ∷ es) w good idle led = cc

-- The ticks that a replica needs: one to see that it lost the lease, one to claim it.
abbrev pub needed : Bool → ℕ
needed leads = if leads then 2 else 1

-- Of replicas in no tick, with the key free, any sequence of ticks that Redis answers in which some
-- replica ticks twice, or once as a follower, ends with a replica that leads as the owner of the
-- key.
pub run_elects :
    (es : List Event) (i : String) (electors : String → Elector)
    → all is_good_tick es ≡ true
    → ((j : String) → (electors j).ticking ≡ false)
    → needed (electors i).leader ≤ ticks_of i es
    → IsLed (run es (record { key = none; electors = electors }))
unfolding run is_good_tick step ticks_of
run_elects [] i electors good idle often = absurd (ground arith)
run_elects (ticks true id ∷ es) i electors good idle often = cc
run_elects (ticks false id ∷ es) i electors good idle often =
    let w : World = record { key = none; electors = electors } in
    elim (free_tick id electors (idle id)) [
      | inl led ↦ IsLed-forever es (tick false id w) (ground arith) (λ j. tick-idle id j w idle) led
      | inr (unowned, led, demoted, others) ↦
          let ih =
            run_elects es i (tick false id w).electors (ground arith) (λ j. tick-idle id j w idle)
              (elim (Bool-cases (str_eq id i)) [
                | inl hit ↦
                    let same : id ≡ i = ground (arith, eq_iff id i, hit) in
                    ground (arith, rw same at demoted, rw same at led, often, hit)
                | inr miss ↦ ground (arith, others i miss, often, miss)
              ]) in
          subst (λ k. IsLed (run es (record { key = k; electors = (tick false id w).electors })))
            (sym unowned) ih
    ]
run_elects (starts f id ∷ es) i electors good idle often = cc
run_elects (stops f id ∷ es) i electors good idle often = cc
run_elects (end_stops id ∷ es) i electors good idle often = cc
run_elects (expires ∷ es) i electors good idle often = cc
