-- ===== src/PubsubRouter.antt =====
-- mercury/PubsubRouter.cpp: the choice of the next hop for a value.
pub mod Handover
pub mod Rendezvous
pub mod NextHop
pub mod RangeData
pub mod Walk
use distributed_games.Base.{
  ℕ, Bool, true, false, not, ◌&&◌, ◌||◌, Option, none, some, List, leb, ltb_ℤ, leb_ℤ, if◌then◌else◌,
}
use distributed_games.Value.{Value}
use distributed_games.Address.{IpEndPoint, equals}
use distributed_games.Constraint.{
  Constraint, NodeRange, Directions, get_route_directions, clamp, covers,
}
use distributed_games.Peer.{Peer, successor}
use distributed_games.Cache.{CacheEntry}
use distributed_games.Hub.{get_nearest_peer}

pub is_closer : Value → Value → Value → Bool
is_closer start first second =
    if ltb_ℤ start first
    then if leb_ℤ start second && leb_ℤ second first then false else true
    else if leb_ℤ first second && leb_ℤ second start
    then true
    else false

-- The predecessor gets the message only if it is a successor as well.
pub send_to_peer : Option Peer → Peer → Option IpEndPoint
send_to_peer pred peer = elim pred [
  | none ↦ some peer.address
  | some q ↦
      if equals q.address peer.address && not (peer.types successor)
      then none
      else some peer.address
]

pub choose_candidate : NodeRange → Option CacheEntry → Option Peer → Peer → Option IpEndPoint
choose_candidate own entry pred peer = elim entry [
  | none ↦ send_to_peer pred peer
  | some e ↦
      if is_closer own.min e.range.min peer.range.min
      then some e.address
      else send_to_peer pred peer
]

-- `ComputeNextHop`: `entry` is what the lookup in the cache gave, nothing without a cache, and `pred`
-- the predecessor, if there is one.
pub compute_next_hop :
    NodeRange → Value → Option CacheEntry → Option Peer → List Peer → Value → Option IpEndPoint
compute_next_hop own absmax entry pred sorted val = elim (get_nearest_peer absmax val sorted) [
  | none ↦ none
  | some peer ↦
      if covers peer.range val then some peer.address else choose_candidate own entry pred peer
]

-- What `RouteRangeData` reads of the node: its address, its range and place on the ring, its successor, the
-- settings, and what the application answers when it is asked to let a message pass.
pub record Router : Type 0 where
  pub address : IpEndPoint
  pub own : NodeRange
  pub absmin : Value
  pub absmax : Value
  pub am_rightmost : Bool
  pub successor : IpEndPoint
  pub fanout_pubs : Bool
  pub max_message_ttl : ℕ
  pub check_app_linear : Bool
  pub check_app_route : Bool

-- What it does: its result, whether the message was handled at this node as its rendezvous, whether it
-- was switched to linear routing or fanned out, and where it goes next.
pub record Routed : Type 0 where
  pub ok : Bool
  pub handled : Bool
  pub made_linear : Bool
  pub fanned_out : Bool
  pub next_hop : Option IpEndPoint

abbrev pub dropped : Routed
dropped = record {
  ok = false;
  handled = false;
  made_linear = false;
  fanned_out = false;
  next_hop = none;
}

-- At the left end of its constraint a message is handled and switched to linear routing.
route_left_end : Router → Directions → Routed
route_left_end n d = record {
  ok = if n.fanout_pubs then true else if d.right then n.check_app_linear else true;
  handled = true;
  made_linear = true;
  fanned_out = n.fanout_pubs && d.right;
  next_hop =
      if not n.fanout_pubs && (d.right && n.check_app_linear) then some n.successor else none;
}

-- `hop` is what `ComputeNextHop` gives for the minimum of the constraint.
route_to_left_end : Router → Option IpEndPoint → Routed
route_to_left_end n hop = record dropped {
  ok = n.check_app_route;
  next_hop = if n.check_app_route then hop else none;
}

pub route_linearly : Router → Directions → Routed
route_linearly n d = record dropped {
  ok = d.right && n.check_app_linear;
  handled = d.center;
  next_hop = if d.right && n.check_app_linear then some n.successor else none;
}

in_bounds : Router → Constraint → Bool
in_bounds n c =
    leb_ℤ n.absmin c.min && (leb_ℤ c.min n.absmax && (leb_ℤ n.absmin c.max && leb_ℤ c.max n.absmax))

-- `RouteRangeData` on the message's constraint of the hub's attribute; `none` is a failed ASSERT.
-- After the ASSERTs the clamping changes nothing. `hop` is as above.
pub route_range_data : Router → Option Constraint → Bool → ℕ → Option IpEndPoint → Option Routed
unfolding in_bounds route_left_end route_to_left_end route_linearly
route_range_data n none is_linear hop_count hop = some dropped
route_range_data n (some c) is_linear hop_count hop =
    let d = get_route_directions n.own n.am_rightmost (clamp n.absmin n.absmax c) in
    if in_bounds n c
    then if ltb_ℤ c.max c.min || leb n.max_message_ttl hop_count
      then some dropped
      else if is_linear
      then some (route_linearly n d)
      else if not d.left && d.center
      then some (route_left_end n d)
      else some (route_to_left_end n hop)
    else none
