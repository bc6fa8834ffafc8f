-- ===== src/Hub/Table/Finding.antt =====
-- What the map of peers has for an address after each of its operations.
use distributed_games.Base.{
  ◌≡◌, refl, Bool, true, false, not, ◌&&◌, ◌||◌, if◌then◌else◌, Option, none, some, List, [], ◌∷◌,
  arith,
}
use mathlib.Core.Option
use distributed_games.TimeVal.{TimeVal}
use distributed_games.Address.{IpEndPoint, equals}
use distributed_games.Constraint.{NodeRange}
use distributed_games.Peer.{
  PeerType, Peer, set_range, add_peer_type, remove_peer_type, has_type, same_type, successor,
  predecessor, long_nbr, rev_long_nbr,
}
use distributed_games.Hub.Table.{find_peer, insert_sid, update_peer, erase_peer}

pub equals-eq : (a b : IpEndPoint) → equals a b ≡ true → a ≡ b
unfolding equals
equals-eq a b h = ground arith

pub equals_self : (a : IpEndPoint) → equals a a ≡ true
unfolding equals
equals_self a = ground arith

-- An operation on a peer that leaves its address.
abbrev pub IsLocal : (Peer → Peer) → Type 0
IsLocal f = (p : Peer) → (f p).address ≡ p.address

pub find_peer-update_peer :
    (a b : IpEndPoint) (f : Peer → Peer) (ps : List Peer)
    → IsLocal f
    → find_peer b (update_peer a f ps)
      ≡ (if equals a b then Option.map f (find_peer b ps) else find_peer b ps)
unfolding find_peer update_peer
find_peer-update_peer a b f [] h = ground arith
find_peer-update_peer a b f (p ∷ ps) h = ground (
  arith,
  h p,
  equals-eq a b,
  equals-eq p.address a,
  equals-eq p.address b,
  equals_self a,
  find_peer-update_peer a b f ps h,
)

pub find_peer-erase_peer :
    (a b : IpEndPoint) (ps : List Peer)
    → find_peer b (erase_peer a ps) ≡ (if equals a b then none else find_peer b ps)
unfolding find_peer erase_peer
find_peer-erase_peer a b [] = ground arith
find_peer-erase_peer a b (p ∷ ps) = ground (
  arith,
  equals-eq a b,
  equals-eq p.address a,
  equals-eq p.address b,
  equals_self a,
  find_peer-erase_peer a b ps,
)

pub find_peer-insert_sid :
    (p : Peer) (b : IpEndPoint) (ps : List Peer)
    → find_peer p.address ps ≡ none
    → find_peer b (insert_sid p ps) ≡ (if equals p.address b then some p else find_peer b ps)
unfolding find_peer insert_sid
find_peer-insert_sid p b [] h = refl
find_peer-insert_sid p b (q ∷ qs) h = ground (
  arith,
  equals-eq p.address b,
  equals-eq q.address b,
  equals_self b,
  find_peer-insert_sid p b qs,
)

-- Whether the map has a peer of a type for an address.
abbrev pub typed : PeerType → Option Peer → Bool
typed k none = false
typed k (some p) = p.types k

-- A peer of the map has some type.
abbrev pub is_kept : Option Peer → Bool
is_kept none = true
is_kept (some p) = has_type p

pub set_range-IsLocal : (r : NodeRange) → IsLocal (set_range r)
unfolding set_range
set_range-IsLocal r p = refl

pub add_peer_type_effect :
    (now : TimeVal) (k j : PeerType) (p : Peer)
    → ((add_peer_type now k p).address ≡ p.address)
      × ((add_peer_type now k p).types j ≡ (same_type k j || p.types j))
      × (has_type (add_peer_type now k p) ≡ true)
unfolding add_peer_type
add_peer_type_effect now successor j p = ground arith
add_peer_type_effect now predecessor j p = ground arith
add_peer_type_effect now long_nbr j p = ground arith
add_peer_type_effect now rev_long_nbr j p = ground arith

pub remove_peer_type_effect :
    (k j : PeerType) (p : Peer)
    → ((remove_peer_type k p).address ≡ p.address)
      × ((remove_peer_type k p).types j ≡ (not (same_type k j) && p.types j))
unfolding remove_peer_type
remove_peer_type_effect k j p = ground arith

pub find_peer-same :
    (a b : IpEndPoint) (ps : List Peer) → equals a b ≡ true → find_peer b ps ≡ find_peer a ps
find_peer-same a b ps h = ground (arith, equals-eq a b h)
