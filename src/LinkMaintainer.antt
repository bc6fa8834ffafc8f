-- ===== src/LinkMaintainer.antt =====
-- mercury/LinkMaintainer.cpp and .h: how a node joins the ring of a hub, keeps its neighbours, and
-- leaves.
pub mod Split
pub mod Joining
pub mod Neighbors
pub mod Arriving
pub mod Leaving
pub mod Departing
pub mod Rounds
pub mod Delivered
pub mod Attempts
pub mod Heads
pub mod Duplicates
pub mod Handshake
pub mod Early
pub mod Dispatch
pub mod Ready
pub mod Kept
use distributed_games.Base.{
  ℕ, ◌+◌, ◌*◌, ◌/◌, suc, Bool, true, false, not, ◌&&◌, ◌||◌, ltb, leb, ltb_ℤ, leb_ℤ, if◌then◌else◌,
  ℤ, pos, negsuc, ◌+ℤ◌, ◌-ℤ◌, sub_ℕ, Option, none, some, List, [], ◌∷◌, ◌++◌,
}
use distributed_games.Value.{Value}
use distributed_games.TimeVal.{TimeVal}
use distributed_games.Address.{IpEndPoint, equals}
use distributed_games.Constraint.{NodeRange, get_span}
use distributed_games.Interest.{Interest}
use distributed_games.Message.{Message}
use distributed_games.Message.Ring.{HeartBeat, Pred}
use distributed_games.Message.Successors.{SuccessorList}
use distributed_games.Message.Join.{JoinRequest}
use distributed_games.Message.JoinResponse.{JoinResponse}
use distributed_games.Message.Routing.{Publication}
use distributed_games.Message.Transfer.{LeaveNotification}
use distributed_games.Hub.Member.{MemberHub}
use distributed_games.PubsubStore.{PubsubStore}

-- What the handlers read of the hub, the settings and the clock. `nonces` is what `CreateNonce` gives
-- to a message of a type, and `half_load` half of the node's load, a float.
pub record Env : Type 0 where
  pub hub_id : ℕ
  pub absmin : Value
  pub absmax : Value
  pub now : TimeVal
  pub tcp_failure_timeout : ℕ
  pub successors_to_keep : ℕ
  pub do_loadbal : Bool
  pub half_load : ℕ
  pub nonces : ℕ → ℕ

abbrev pub time_now : Env → TimeVal
time_now e = e.now

-- An entry of `m_JoinResponseSIDs`.
pub record Answered : Type 0 where
  pub joiner : IpEndPoint
  pub expiry : TimeVal

-- A member of a hub with its store, and what its link maintainer knows: the join requests that it
-- has answered, whether the timer that asks to join is cancelled, and the load it has set.
pub record Node : Type 0 where
  pub hub : MemberHub
  pub store : PubsubStore
  pub answered : List Answered
  pub timer_cancelled : Bool
  pub load : ℕ

pub data Outgoing : Type 0 where
  join_request : JoinRequest → Outgoing
  join_response : JoinResponse → Outgoing
  notify_successor : HeartBeat → Outgoing
  get_pred get_succ_list : Message → Outgoing
  pred : Pred → Outgoing
  succ_list : SuccessorList → Outgoing
  leave : LeaveNotification → Outgoing
  subscription_list : Message → List Interest → Outgoing
  trigger_list : Message → List Publication → Outgoing
  link_break : Message → Outgoing

pub record Sent : Type 0 where
  pub to : IpEndPoint
  pub msg : Outgoing

pub record Handled : Type 0 where
  pub node : Node
  pub sent : List Sent

-- The header of a message of a type that the node makes.
abbrev pub new_header : Env → ℕ → Node → Message
new_header e t n = record {
  type = t;
  sender = n.hub.address;
  hub_id = e.hub_id;
  hop_count = 0;
  nonce = e.nonces t;
}

-- `operator/` by 2, which cuts off towards 0.
unfoldable pub half : Value → Value
half (pos n) = pos (n / 2)
half (negsuc n) = sub_ℕ 0 (suc n / 2)

-- `MemberHub::GetRangeSpan` of a node with a range.
unfoldable pub get_range_span : Value → Value → NodeRange → Value
get_range_span absmin absmax r = get_span absmin (absmax -ℤ pos 1) r

-- The value at which `HandleJoinRequest` and `DoLeaveJoin` cut a range.
unfoldable pub middle : Value → Value → NodeRange → Value
unfolding half get_range_span
middle absmin absmax r =
    let mid = r.min +ℤ half (get_range_span absmin absmax r) in
    if ltb_ℤ absmax mid then mid -ℤ absmax +ℤ absmin else mid
