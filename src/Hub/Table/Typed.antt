-- ===== src/Hub/Table/Typed.antt =====
-- The types of the peers in the map after each of its operations.
use distributed_games.Base.{
  ◌≡◌, refl, true, false, not, ◌&&◌, ◌||◌, if◌then◌else◌, Option, none, some, List, [], ◌∷◌, arith,
  Bool-cases, Option-cases, inl, inr,
}
use distributed_games.TimeVal.{TimeVal}
use distributed_games.Address.{IpEndPoint, equals}
use distributed_games.Constraint.{NodeRange, range_none}
use distributed_games.Constraint
use distributed_games.Peer.{
  PeerType, Peer, new_peer, set_range, add_peer_type, remove_peer_type, has_type, same_type,
  successor, predecessor, long_nbr, rev_long_nbr,
}
use distributed_games.Hub.Table.{
  find_peer, update_peer, register, remove_peer, remove_peers, contains,
}
use distributed_games.Hub.Table.Finding.{
  equals_self, find_peer-update_peer, find_peer-erase_peer, find_peer-insert_sid, typed, is_kept,
  set_range-IsLocal, find_peer-same, add_peer_type_effect, remove_peer_type_effect,
}

-- The peer that a registration leaves for its address.
entry : TimeVal → IpEndPoint → NodeRange → Option Peer → Peer
entry now a r none = new_peer now a r
entry now a r (some p) = if Constraint.equals r range_none then p else set_range r p

entry-types :
    (now : TimeVal) (a : IpEndPoint) (r : NodeRange) (o : Option Peer) (j : PeerType)
    → (entry now a r o).types j ≡ typed j o
unfolding entry new_peer set_range
entry-types now a r none j = refl
entry-types now a r (some p) j = ground arith

find_peer-register :
    (now : TimeVal) (a b : IpEndPoint) (r : NodeRange) (ps : List Peer)
    → find_peer b (register now a r ps)
      ≡ (if equals a b then some (entry now a r (find_peer a ps)) else find_peer b ps)
unfolding register entry new_peer
find_peer-register now a b r ps = elim (Option-cases (find_peer a ps)) [
  | inl n ↦ rw (n, register, entry) (find_peer-insert_sid (new_peer now a r) b ps n)
  | inr (p, e) ↦ ground (
    arith,
    e,
    find_peer-same a b ps,
    find_peer-update_peer a b (set_range r) ps (set_range-IsLocal r),
  )
]

find_peer-add :
    (now : TimeVal) (k : PeerType) (a b : IpEndPoint) (r : NodeRange) (ps : List Peer)
    → let qs = update_peer a (add_peer_type now k) (register now a r ps) in
      find_peer b qs ≡ (
        if equals a b
        then some (add_peer_type now k (entry now a r (find_peer a ps)))
        else find_peer b ps)
find_peer-add now k a b r ps = ground (
  arith,
  find_peer-update_peer a b (add_peer_type now k) (register now a r ps)
      (λ p. (add_peer_type_effect now k k p).0),
  find_peer-register now a b r ps,
)

-- Registering a peer and adding a type gives its address that type and leaves all others.
pub typed-add :
    (now : TimeVal) (k j : PeerType) (a b : IpEndPoint) (r : NodeRange) (ps : List Peer)
    → let qs = update_peer a (add_peer_type now k) (register now a r ps) in
      (typed j (find_peer b qs) ≡ (same_type k j && equals a b || typed j (find_peer b ps)))
      × (is_kept (find_peer b ps) ≡ true → is_kept (find_peer b qs) ≡ true)
typed-add now k j a b r ps =
    let e = find_peer-add now k a b r ps in
    let p = entry now a r (find_peer a ps) in
    let effect = add_peer_type_effect now k j p in
    let types = entry-types now a r (find_peer a ps) j in
    elim (Bool-cases (equals a b)) [
      | inl s ↦
          let found : find_peer b (update_peer a (add_peer_type now k) (register now a r ps))
              ≡ some (add_peer_type now k p) =
            ground (arith, e, s) in
          ground (arith, found, s, effect.1, effect.2, types, find_peer-same a b ps s)
      | inr o ↦
          let found : find_peer b (update_peer a (add_peer_type now k) (register now a r ps))
              ≡ find_peer b ps =
            ground (arith, e, o) in
          ground (arith, found, o)
    ]

none_typed : (p : Peer) (j : PeerType) → has_type p ≡ false → p.types j ≡ false
none_typed p successor h = ground arith
none_typed p predecessor h = ground arith
none_typed p long_nbr h = ground arith
none_typed p rev_long_nbr h = ground arith

-- Taking a type from an address takes no other, and the map drops a peer without types.
pub typed-remove_peer :
    (k j : PeerType) (a b : IpEndPoint) (ps : List Peer)
    → (typed j (find_peer b (remove_peer k a ps))
        ≡ (not (same_type k j && equals a b) && typed j (find_peer b ps)))
      × (is_kept (find_peer b ps) ≡ true → is_kept (find_peer b (remove_peer k a ps)) ≡ true)
unfolding remove_peer
typed-remove_peer k j a b ps =
    let local = λ (p : Peer). (remove_peer_type_effect k k p).0 in
    let qs = update_peer a (remove_peer_type k) ps in
    let at_b = find_peer-update_peer a b (remove_peer_type k) ps local in
    let at_a = find_peer-update_peer a a (remove_peer_type k) ps local in
    elim (Option-cases (find_peer a ps)) [
      | inl n ↦
          let gone : find_peer a qs ≡ none = ground (arith, at_a, n, equals_self a) in
          ground (arith, gone, at_b, n, find_peer-same a b ps)
      | inr (p, e) ↦
          let left : find_peer a qs ≡ some (remove_peer_type k p) =
            ground (arith, at_a, e, equals_self a) in
          ground (
            arith,
            left,
            at_b,
            e,
            find_peer-same a b ps,
            remove_peer_type_effect k j p,
            none_typed (remove_peer_type k p) j,
            find_peer-erase_peer a b qs,
          )
    ]

pub typed-remove_peers :
    (k j : PeerType) (xs : List IpEndPoint) (b : IpEndPoint) (ps : List Peer)
    → (typed j (find_peer b (remove_peers k xs ps))
        ≡ (not (same_type k j && contains b xs) && typed j (find_peer b ps)))
      × (is_kept (find_peer b ps) ≡ true → is_kept (find_peer b (remove_peers k xs ps)) ≡ true)
unfolding remove_peers
typed-remove_peers k j [] b ps = ground arith
typed-remove_peers k j (a ∷ xs) b ps =
    ground (arith, typed-remove_peer k j a b ps, typed-remove_peers k j xs b (remove_peer k a ps))
