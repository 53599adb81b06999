-- ===== src/Leader.antt =====
-- Leader election over a Redis lease (src/engine/leader.ts), for any number of replicas that
-- share one key. A Lua script and a SET with NX are atomic, so a tick is one step; the lease may
-- expire between any two steps. An instance is named by its instance id.
pub mod Laws
pub mod Election
mod Tests
use the_bureau.Prelude.{
  ◌+◌, Bool, List, Option, String, [], if◌then◌else◌, false, is_some, none, some, str_eq, true, ℕ,
  ◌∷◌,
}

pub record Elector : Type 0 where
  pub leader : Bool
  pub ticking : Bool
  pub started : Bool
  -- between the release of the key and the end of `stop`
  pub stopping : Bool
  pub acquired_calls : ℕ
  pub lost_calls : ℕ

-- The value of the lease key, and the elector of each instance.
pub record World : Type 0 where
  pub key : Option String
  pub electors : String → Elector

set_elector : String → Elector → World → World
set_elector id e w = record w { electors = λ j. if str_eq id j then e else w.electors j }

-- `GET key == ARGV[1]`
unfoldable pub is_owner : String → Option String → Bool
is_owner id none = false
is_owner id (some owner) = str_eq owner id

gain : Elector → Elector
gain e = record e { leader = true; acquired_calls = e.acquired_calls + 1 }

lose : Elector → Elector
lose e = record e { leader = false; lost_calls = e.lost_calls + 1 }

-- RENEW_LUA for a leader: the key stays its own, or leadership is lost.
renew : String → Elector → World → World
unfolding set_elector lose is_owner
renew id e w = if is_owner id w.key then w else set_elector id (lose e) w

-- SET … NX for a follower.
claim : String → Elector → World → World
unfolding set_elector gain
claim id e w = if is_some w.key then w else set_elector id (gain e) (record w { key = some id })

-- The `catch`: Redis has failed.
step_down : String → Elector → World → World
unfolding set_elector lose
step_down id e w = if e.leader then set_elector id (lose e) w else w

-- `tick`; a tick that finds another under way returns at once.
unfoldable pub tick : Bool → String → World → World
unfolding renew claim step_down
tick redis_fails id w =
    let e = w.electors id in
    if e.ticking
    then w
    else if redis_fails
    then step_down id e w
    else if e.leader
    then renew id e w
    else claim id e w

-- `start`: nothing if the timer is set.
pub start : Bool → String → World → World
unfolding tick set_elector
start redis_fails id w =
    if (w.electors id).started
    then w
    else (let w' = tick redis_fails id w in
        set_elector id (record (w'.electors id) { started = true }) w')

-- RELEASE_LUA, if Redis answers.
release : Bool → String → World → World
unfolding is_owner
release redis_fails id w =
    if redis_fails then w else if is_owner id w.key then record w { key = none } else w

-- `stop` as far as the release of the key; a leader still counts as one while it waits for Redis.
pub stop : Bool → String → World → World
unfolding set_elector release
stop redis_fails id w =
    let e = record (w.electors id) { started = false } in
    if e.leader
    then set_elector id (record e { stopping = true }) (release redis_fails id w)
    else set_elector id e w

-- The rest of `stop`.
pub end_stop : String → World → World
unfolding set_elector
end_stop id w =
    let e = w.electors id in
    if e.stopping then set_elector id (record e { leader = false; stopping = false }) w else w

pub data Event : Type 0 where
  ticks : Bool → String → Event
  starts : Bool → String → Event
  stops : Bool → String → Event
  end_stops : String → Event
  expires : Event

pub step : Event → World → World
unfolding tick start stop end_stop
step (ticks f id) w = tick f id w
step (starts f id) w = start f id w
step (stops f id) w = stop f id w
step (end_stops id) w = end_stop id w
step expires w = record w { key = none }

pub run : List Event → World → World
unfolding step
run [] w = w
run (e ∷ es) w = run es (step e w)
