-- ===== src/Hub/Repairs.antt =====
-- Two functions of the hub that do less than their comments and callers expect.
use distributed_games.Base.{
  ℕ, ◌≡◌, refl, ◌∙◌, true, some, List, [], ◌∷◌, arith, Bool-cases, Option-cases, inl, inr,
}
use distributed_games.TimeVal.{TimeVal}
use distributed_games.Address.{IpEndPoint, equals}
use distributed_games.Peer.{
  PeerType, Peer, successor, long_nbr, rev_long_nbr, recvd_message, register_incoming_ping,
  lost_pings,
}
use distributed_games.Hub.Table.{find_peer, update_peer}
use distributed_games.Hub.Table.Finding.{find_peer-update_peer}
use distributed_games.Hub.Table.Consistent.{IsConsistent}
use distributed_games.Hub.Member.{MemberHub, running, update_sorted}
use distributed_games.Hub.Liveness.{
  on_peer_death, remove_peer, register_ping, for_list, force_peer_refresh,
}
use distributed_games.Hub.Alive.{lost_in}

-- A change of a peer after which it is lost as a reverse long neighbour or not, as before.
abbrev LeavesReverse : (Peer → Peer) → Type 0
LeavesReverse f =
    (p : Peer)
    → ((f p).address ≡ p.address) × ((f p).last_long_neighbor_ping ≡ p.last_long_neighbor_ping)

for_list-LeavesReverse :
    (xs : List IpEndPoint) (f : Peer → Peer) (ps : List Peer) (a : IpEndPoint) (p : Peer)
    → LeavesReverse f
    → find_peer a ps ≡ some p
    → (q : Peer) × (find_peer a (for_list xs f ps) ≡ some q)
      × (q.last_long_neighbor_ping ≡ p.last_long_neighbor_ping)
unfolding for_list
for_list-LeavesReverse [] f ps a p h e = (p, e, refl)
for_list-LeavesReverse (x ∷ xs) f ps a p h e =
    let at_a = find_peer-update_peer x a f ps (λ q. (h q).0) in
    elim (Bool-cases (equals x a)) [
      | inl s ↦
          let (q, found, same) =
            for_list-LeavesReverse xs f (update_peer x f ps) a (f p) h
              (ground (arith, at_a, s, e)) in
          (q, found, same ∙ (h p).1)
      | inr o ↦ for_list-LeavesReverse xs f (update_peer x f ps) a p h (ground (arith, at_a, o, e))
    ]

recvd_message-LeavesReverse : (now : TimeVal) → LeavesReverse (recvd_message now)
unfolding recvd_message
recvd_message-LeavesReverse now p = (refl, refl)

successor_ping-LeavesReverse : (now : TimeVal) → LeavesReverse (register_ping true successor now)
unfolding register_ping register_incoming_ping
successor_ping-LeavesReverse now p = (refl, refl)

-- The refresh of all peers keeps every peer of the map, and each counts as lost as a reverse long
-- neighbour at any later check exactly if it did so without the refresh.
pub force_peer_refresh-lost_in :
    (now later : TimeVal) (timeout : ℕ) (h : MemberHub) (a : IpEndPoint) (p : Peer)
    → find_peer a h.table.peers ≡ some p
    → (q : Peer) × (find_peer a (force_peer_refresh now h).table.peers ≡ some q)
      × (lost_in timeout later rev_long_nbr q ≡ lost_in timeout later rev_long_nbr p)
unfolding force_peer_refresh lost_in lost_pings
force_peer_refresh-lost_in now later timeout h a p e =
    let lists = h.table.lists in
    let heard = recvd_message-LeavesReverse now in
    let pinged = successor_ping-LeavesReverse now in
    let (q1, e1, s1) =
      for_list-LeavesReverse (lists successor) (recvd_message now) h.table.peers a p heard e in
    let (q2, e2, s2) =
      for_list-LeavesReverse (lists long_nbr) (recvd_message now) _ a q1 heard e1 in
    let (q3, e3, s3) =
      for_list-LeavesReverse (lists PeerType.predecessor) (register_ping true successor now) _ a q2
        pinged e2 in
    let (q4, e4, s4) =
      for_list-LeavesReverse (lists rev_long_nbr) (register_ping true successor now) _ a q3 pinged
        e3 in
    (q4, e4, rw (s4 ∙ s3 ∙ s2 ∙ s1))

-- The removal of a peer starts no repair of a long pointer, also if the peer was a long neighbour.
-- The lists and the map agree, and the node goes on.
pub remove_peer-repairs :
    (a : IpEndPoint) (h g : MemberHub)
    → IsConsistent h.table
    → remove_peer a h ≡ running g
    → g.repairs ≡ h.repairs
unfolding remove_peer on_peer_death update_sorted
remove_peer-repairs a h g v e = elim (Option-cases (find_peer a h.table.peers)) [
  | inl n ↦ ground (arith, n, e)
  | inr (p, f) ↦ ground (arith, f, e, v.listed long_nbr a)
]
