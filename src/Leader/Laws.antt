-- ===== src/Leader/Laws.antt =====
-- What the lease of src/engine/leader.ts guarantees.
use the_bureau.Leader.{start, step, run, end_stop, end_stops}
use the_bureau.Leader.{
  Elector, Event, World, claim, expires, gain, is_owner, lose, release, renew, set_elector, starts,
  step_down, stop, stops, tick, ticks,
}
use the_bureau.Prelude.{
  Bool, List, Option, String, [], all, arith, if◌then◌else◌, eq_iff, false, none, refl, some, sym,
  true, ◌∙◌, ◌∷◌, ◌≡◌, ◌||◌,
}

-- The replica does not believe that it leads, or it owns the key, or it is about to stop.
unfoldable pub is_safe : String → World → Bool
is_safe id w =
    if (w.electors id).leader then is_owner id w.key || (w.electors id).stopping else true

if-keeps : (P : World → Type 0) (b : Bool) {v w : World} → P v → P w → P (if b then v else w)
if-keeps P true p q = p
if-keeps P false p q = q

owner_unique :
    (i j : String) (key : Option String) → is_owner i key ≡ true → is_owner j key ≡ true → i ≡ j
unfolding is_owner
owner_unique i j none hi hj = cc
owner_unique i j (some k) hi hj = sym ((eq_iff k i).0 hi) ∙ (eq_iff k j).0 hj

set_elector-is_safe :
    (id : String) (e : Elector) (j : String) (w : World)
    → is_safe j w ≡ true
    → e.leader ≡ false
    → is_safe j (set_elector id e w) ≡ true
unfolding is_safe set_elector
set_elector-is_safe id e j w s keep = ground arith

step_down-is_safe :
    (id j : String) (w : World)
    → is_safe j w ≡ true
    → is_safe j (step_down id (w.electors id) w) ≡ true
unfolding step_down lose
step_down-is_safe id j w s =
    if-keeps (λ v. is_safe j v ≡ true) (w.electors id).leader
      (set_elector-is_safe id (lose (w.electors id)) j w s refl) s

renew-is_safe :
    (id j : String) (w : World) → is_safe j w ≡ true → is_safe j (renew id (w.electors id) w) ≡ true
unfolding renew lose
renew-is_safe id j w s =
    if-keeps (λ v. is_safe j v ≡ true) (is_owner id w.key) s
      (set_elector-is_safe id (lose (w.electors id)) j w s refl)

claim-is_safe :
    (id j : String) (w : World) → is_safe j w ≡ true → is_safe j (claim id (w.electors id) w) ≡ true
unfolding claim is_safe set_elector is_owner gain
claim-is_safe id j w s = go w.key w.electors s
  where
    go :
        (key : Option String) (es : String → Elector)
        → is_safe j (record { key = key; electors = es }) ≡ true
        → is_safe j (claim id (es id) (record { key = key; electors = es })) ≡ true
    go none es s = ground (arith, eq_iff id j)
    go (some k) es s = s

tick-is_safe :
    (fails : Bool) (id j : String) (w : World)
    → is_safe j w ≡ true
    → is_safe j (tick fails id w) ≡ true
unfolding tick
tick-is_safe fails id j w s =
    if-keeps (λ v. is_safe j v ≡ true) (w.electors id).ticking s
      (if-keeps (λ v. is_safe j v ≡ true) fails (step_down-is_safe id j w s)
        (if-keeps (λ v. is_safe j v ≡ true) (w.electors id).leader (renew-is_safe id j w s)
          (claim-is_safe id j w s)))

start-is_safe :
    (fails : Bool) (id j : String) (w : World)
    → is_safe j w ≡ true
    → is_safe j (start fails id w) ≡ true
unfolding start set_elector is_safe
start-is_safe fails id j w s =
    if-keeps (λ v. is_safe j v ≡ true) (w.electors id).started s
      (ground (arith, eq_iff id j, tick-is_safe fails id j w s))

stop-is_safe :
    (fails : Bool) (id j : String) (w : World)
    → is_safe j w ≡ true
    → is_safe j (stop fails id w) ≡ true
unfolding stop set_elector is_safe release is_owner
stop-is_safe fails id j w s = go w.key w.electors s
  where
    go :
        (key : Option String) (es : String → Elector)
        → is_safe j (record { key = key; electors = es }) ≡ true
        → is_safe j (stop fails id (record { key = key; electors = es })) ≡ true
    go none es s = ground (arith, eq_iff id j)
    go (some k) es s = ground (arith, eq_iff id j, eq_iff k j, eq_iff k id)

end_stop-is_safe :
    (id j : String) (w : World) → is_safe j w ≡ true → is_safe j (end_stop id w) ≡ true
unfolding end_stop
end_stop-is_safe id j w s =
    if-keeps (λ v. is_safe j v ≡ true) (w.electors id).stopping
      (set_elector-is_safe id (record (w.electors id) { leader = false; stopping = false }) j w s
        refl)
      s

-- The lease does not run out in this step.
unfoldable pub is_live : Event → Bool
is_live (ticks f id) = true
is_live (starts f id) = true
is_live (stops f id) = true
is_live (end_stops id) = true
is_live expires = false

step-is_safe :
    (e : Event) (j : String) (w : World)
    → is_live e ≡ true
    → is_safe j w ≡ true
    → is_safe j (step e w) ≡ true
unfolding step is_live
step-is_safe (ticks f id) j w l s = tick-is_safe f id j w s
step-is_safe (starts f id) j w l s = start-is_safe f id j w s
step-is_safe (stops f id) j w l s = stop-is_safe f id j w s
step-is_safe (end_stops id) j w l s = end_stop-is_safe id j w s
step-is_safe expires j w l s = cc

-- A replica that leads only as owner of the key or about to stop still does so after any sequence
-- of ticks, starts and stops of any replicas, with Redis failing at any of them, in which the lease
-- does not expire.
pub run-is_safe :
    (es : List Event) (j : String) (w : World)
    → all is_live es ≡ true
    → is_safe j w ≡ true
    → is_safe j (run es w) ≡ true
unfolding run
run-is_safe [] j w l s = s
run-is_safe (e ∷ es) j w l s =
    run-is_safe es j (step e w) (ground arith) (step-is_safe e j w (ground arith) s)

-- Two replicas that lead at first only as owners of the key or about to stop, and that both lead
-- after a sequence of ticks, starts and steps of stops in which the lease does not expire, neither
-- of them in the middle of a stop, are one and the same.
pub run_leader_unique :
    (es : List Event) (i j : String) (w : World)
    → all is_live es ≡ true
    → is_safe i w ≡ true
    → is_safe j w ≡ true
    → ((run es w).electors i).leader ≡ true
    → ((run es w).electors j).leader ≡ true
    → ((run es w).electors i).stopping ≡ false
    → ((run es w).electors j).stopping ≡ false
    → i ≡ j
unfolding is_safe
run_leader_unique es i j w l si sj li lj ni nj =
    owner_unique i j (run es w).key (ground (arith, run-is_safe es i w l si))
      (ground (arith, run-is_safe es j w l sj))
