-- ===== src/Peers/Laws.antt =====
-- What an update of a peer record in src/registry.ts reaches.
use the_bureau.Peers.{
  register, PeerInfo, PeerUpdate, Peers, apply_peer_update, get_peer, update, update_self,
}
use the_bureau.Prelude.{
  Option, String, if◌then◌else◌, none, not, some, str_eq, ◌≡◌, Bool-cases, Option-cases, arith,
  eq_iff, inl, inr, lookup, lookup-insert,
}

-- The engine's own record is rewritten whether or not it had expired; another session's is
-- updated if it is there and never made anew; nothing else changes.
apply_peer_update-lookup :
    (session id : String) (u : PeerUpdate) (ps : Peers)
    → get_peer id (apply_peer_update session u ps) ≡ (
        if not (str_eq session id)
        then get_peer id ps
        else if str_eq session ps.self.id
        then some (update u ps.self)
        else elim (get_peer session ps) as (λ _. Option PeerInfo) [
          | none ↦ none
          | some p ↦ some (update u p)
        ])
unfolding get_peer apply_peer_update register update_self update
apply_peer_update-lookup session id u ps = elim (Bool-cases (str_eq session ps.self.id)) [
  | inl own ↦ rw own (
      ground (
        arith,
        own,
        lookup-insert ps.self.id id (update u ps.self) ps.keys,
        eq_iff session ps.self.id,
        eq_iff session id,
        eq_iff ps.self.id id,
      ))
  | inr other ↦ elim (Option-cases (lookup session ps.keys)) [
    | inl gone ↦ rw (other, gone) (ground (arith, eq_iff session id, gone))
    | inr (p, there) ↦
        rw (other, there)
          (ground (arith, eq_iff session id, lookup-insert session id (update u p) ps.keys))
  ]
]
