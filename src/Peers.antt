-- ===== src/Peers.antt =====
-- The registry of peers (src/registry.ts): a peer is a key that its heartbeat renews. Expiry is an
-- operation of its own, of which the code is not the cause.
pub mod Laws
use the_bureau.Prelude.{
  ◌&&◌, Bool, List, Option, String, delete, if◌then◌else◌, false, filter, get_or, insert, lookup,
  map, none, some, str_eq, true, ◌||◌, ℕ, ◌+◌, ◌-◌, ◌==◌,
}

-- `PeerInfo` of src/types/peer.ts, with the fields that are filtered on or updated here.
pub record PeerInfo : Type 0 where
  pub id : String
  pub role : String
  pub host : String
  pub project : String
  pub description : String
  pub last_activity : ℕ

-- `Partial<PeerInfo>` on those fields; the id is not among the updates.
pub record PeerUpdate : Type 0 where
  pub role : Option String
  pub project : Option String
  pub description : Option String
  pub last_activity : Option ℕ

pub record PeerFilter : Type 0 where
  pub role : Option String
  pub host : Option String
  pub project : Option String

-- The record of one engine, `self`, whether `heartbeatTimer` is set, the number of intervals that
-- run (a second start does not clear the first one's), and the keys `peers:*`.
pub record Peers : Type 0 where
  pub self : PeerInfo
  pub heartbeat : Bool
  pub intervals : ℕ
  pub keys : List (String × PeerInfo)

unfoldable pub update : PeerUpdate → PeerInfo → PeerInfo
update u p = record p {
  role = get_or u.role p.role;
  project = get_or u.project p.project;
  description = get_or u.description p.description;
  last_activity = get_or u.last_activity p.last_activity;
}

unfoldable pub register : Peers → Peers
register ps = record ps { keys = insert ps.self.id ps.self ps.keys }

unfoldable pub stop_heartbeat : Peers → Peers
stop_heartbeat ps =
    if ps.heartbeat then record ps { heartbeat = false; intervals = ps.intervals - 1 } else ps

unfoldable pub start_heartbeat : Peers → Peers
start_heartbeat ps = record ps { heartbeat = true; intervals = ps.intervals + 1 }

-- The callback of an interval.
unfoldable pub beat : Peers → Peers
beat ps = if ps.intervals == 0 then ps else register ps

unfoldable pub deregister : Peers → Peers
deregister ps = let ps' = stop_heartbeat ps in record ps' { keys = delete ps.self.id ps'.keys }

unfoldable pub touch_activity : ℕ → Peers → Peers
touch_activity now ps = record ps { self = record ps.self { last_activity = now } }

unfoldable pub get_peer : String → Peers → Option PeerInfo
get_peer id ps = lookup id ps.keys

-- A filter that is absent or empty lets every peer through.
unfoldable pub passes_one : Option String → String → Bool
passes_one none value = true
passes_one (some wanted) value = str_eq wanted "" || str_eq value wanted

unfoldable pub passes_filter : PeerFilter → PeerInfo → Bool
passes_filter f p =
    passes_one f.role p.role && passes_one f.host p.host && passes_one f.project p.project

unfoldable pub list_peers : PeerFilter → Peers → List PeerInfo
list_peers f ps = filter (passes_filter f) (map (λ e. e.1) ps.keys)

unfoldable pub put_peer : PeerInfo → Peers → Peers
put_peer info ps = record ps { keys = insert info.id info ps.keys }

unfoldable pub remove_peer : String → Peers → Peers
remove_peer id ps = record ps { keys = delete id ps.keys }

unfoldable pub update_self : PeerUpdate → Peers → Peers
update_self u ps = record ps { self = update u ps.self }

unfoldable pub apply_peer_update : String → PeerUpdate → Peers → Peers
apply_peer_update session u ps =
    if str_eq session ps.self.id
    then register (update_self u ps)
    else elim (lookup session ps.keys) [
      | none ↦ ps
      | some p ↦ record ps { keys = insert session (update u p) ps.keys }
    ]
