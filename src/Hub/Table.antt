-- ===== src/Hub/Table.antt =====
-- mercury/Hub.cpp: the peers that a member of a hub keeps (`m_PeersByAddress`, in the order of
-- their addresses) and its four lists of them (`PList`). A list refers to peers of the map; a
-- reference is an address here.
pub mod Finding
pub mod Typed
pub mod Consistent
pub mod Subset
use distributed_games.Base.{
  ℕ, Bool, true, false, not, ◌&&◌, ◌||◌, ◌==◌, ltb, if◌then◌else◌, Option, none, some, List, [],
  ◌∷◌, ◌++◌, length,
}
use distributed_games.TimeVal.{TimeVal}
use distributed_games.Address.{IpEndPoint, equals}
use distributed_games.Constraint.{NodeRange, range_none}
use distributed_games.Constraint
use distributed_games.Peer.{
  PeerType, Peer, new_peer, set_range, add_peer_type, remove_peer_type, has_type, same_type,
}

-- `less_SID`
unfoldable pub less_sid : IpEndPoint → IpEndPoint → Bool
less_sid a b = ltb a.ip b.ip || a.ip == b.ip && ltb a.port b.port

unfoldable pub find_peer : IpEndPoint → List Peer → Option Peer
find_peer a [] = none
find_peer a (p ∷ ps) = if equals p.address a then some p else find_peer a ps

-- Insertion of a peer whose address is not in the map.
unfoldable pub insert_sid : Peer → List Peer → List Peer
insert_sid p [] = p ∷ []
insert_sid p (q ∷ qs) = if less_sid p.address q.address then p ∷ q ∷ qs else q ∷ insert_sid p qs

-- A change of the peer that the map has for an address.
unfoldable pub update_peer : IpEndPoint → (Peer → Peer) → List Peer → List Peer
update_peer a f [] = []
update_peer a f (p ∷ ps) = (if equals p.address a then f p else p) ∷ update_peer a f ps

-- `UnRegister`
unfoldable pub erase_peer : IpEndPoint → List Peer → List Peer
erase_peer a [] = []
erase_peer a (p ∷ ps) = let rest = erase_peer a ps in if equals p.address a then rest else p ∷ rest

-- `Register`
unfoldable pub register : TimeVal → IpEndPoint → NodeRange → List Peer → List Peer
register now a range ps = elim (find_peer a ps) [
  | none ↦ insert_sid (new_peer now a range) ps
  | some p ↦ if Constraint.equals range range_none then ps else update_peer a (set_range range) ps
]

abbrev pub contains : IpEndPoint → List IpEndPoint → Bool
contains a [] = false
contains a (b ∷ bs) = equals b a || contains a bs

pub record Table : Type 0 where
  pub peers : List Peer
  pub lists : PeerType → List IpEndPoint

abbrev pub set_list :
    PeerType → List IpEndPoint → (PeerType → List IpEndPoint) → PeerType → List IpEndPoint
set_list k l lists j = if same_type k j then l else lists j

-- `Add`, at the front or at the end of a list.
unfoldable pub add : TimeVal → PeerType → IpEndPoint → NodeRange → Bool → Table → Table
add now k a range front t = record {
  peers = update_peer a (add_peer_type now k) (register now a range t.peers);
  lists =
      set_list k
        (if contains a (t.lists k)
          then t.lists k
          else if front
          then a ∷ t.lists k
          else t.lists k ++ a ∷ [])
        t.lists;
}

-- `remove_peer`
unfoldable pub remove_peer : PeerType → IpEndPoint → List Peer → List Peer
remove_peer k a ps =
    let qs = update_peer a (remove_peer_type k) ps in
    elim (find_peer a qs) [ none ↦ qs | some p ↦ if has_type p then qs else erase_peer a qs ]

unfoldable pub erase_first : IpEndPoint → List IpEndPoint → List IpEndPoint
erase_first a [] = []
erase_first a (b ∷ bs) = let rest = erase_first a bs in if equals b a then bs else b ∷ rest

-- `Remove`
unfoldable pub remove : PeerType → IpEndPoint → Table → Table
remove k a t =
    if contains a (t.lists k)
    then record {
      peers = remove_peer k a t.peers;
      lists = set_list k (erase_first a (t.lists k)) t.lists;
    }
    else t

unfoldable pub remove_peers : PeerType → List IpEndPoint → List Peer → List Peer
remove_peers k [] ps = ps
remove_peers k (a ∷ rest) ps = remove_peers k rest (remove_peer k a ps)

-- `Clear`
unfoldable pub clear : PeerType → Table → Table
clear k t = record { peers = remove_peers k (t.lists k) t.peers; lists = set_list k [] t.lists }

-- `Lookup`
pub lookup : PeerType → IpEndPoint → Table → Option Peer
lookup k a t = if contains a (t.lists k) then find_peer a t.peers else none
