-- ===== src/Message/Protocol.antt =====
-- mercury/Message.cpp: `RegisterMessageTypes` and the reading of a message of any class by
-- `CreateObject<Message>`. Classes that are not modelled, and those of the application, are read by
-- constructors that are given.
pub mod Arrival
use distributed_games.Base.{
  ℕ, zero, suc, ◌%◌, ◌+◌, ◌<◌, ◌≡◌, ap, ◌⊎◌, inl, inr, none, some, List, [], ◌∷◌, ltb, Bool-cases,
  if◌then◌else◌, arith, length, refl, subst, sym, ◌∙◌,
}
use distributed_games.Packet.{M, pure, ◌>>=◌}
use distributed_games.Packet.Codec.{IsCodec, Begins}
use distributed_games.Packet.Writes.{Writes}
use distributed_games.Packet.Reads.{Reads, Reads-map}
use distributed_games.Packet.Transmit.{arrives, arrives_lem, arrives_short}
use distributed_games.AutoSerializer.{create_object, Reads-create_object}
use distributed_games.Message.{Message}
use distributed_games.Message
use distributed_games.Message.Wire as HeaderWire
use distributed_games.Message.Ring.{
  HeartBeat, LivenessPing, Pred, serialize_heart_beat, serialize_ping, serialize_pred,
  construct_heart_beat, construct_ping, construct_pred, get_length_heart_beat, get_length_ping,
  get_length_pred, IsWireHeartBeat, IsWirePing, IsWirePred, heart_beat_codec,
  heart_beat_codec-Begins, ping_codec, ping_codec-Begins, pred_codec, pred_codec-Begins,
}
use distributed_games.Message.Successors.{
  SuccessorList, serialize_successor_list, construct_successor_list, get_length_successor_list,
  IsWireSuccessorList, successor_list_codec, successor_list_codec-Begins,
}
use distributed_games.Message.Join.{
  JoinRequest, serialize_join_request, construct_join_request, get_length_join_request,
  IsWireJoinRequest, join_request_codec, join_request_codec-Begins,
}
use distributed_games.Message.JoinResponse.{
  JoinResponse, serialize_join_response, construct_join_response, get_length_join_response,
}
use distributed_games.Message.JoinResponse.Codec.{IsWireAssigned}
use distributed_games.Message.Routing.{
  Publication, LinearPublication, Subscription, serialize_publication, serialize_linear_publication,
  serialize_subscription, construct_publication, construct_linear_publication,
  construct_subscription, get_length_publication, get_length_linear_publication,
  get_length_subscription, IsWirePublication, IsWireLinearPublication, IsWireSubscription,
  publication_codec, publication_codec-Begins, linear_publication_codec,
  linear_publication_codec-Begins, subscription_codec, subscription_codec-Begins,
}
use distributed_games.Message.Transfer.{
  LeaveNotification, serialize_leave, construct_leave, get_length_leave, IsWireLeave, leave_codec,
  leave_codec-Begins,
}

-- A message of one of the classes that are modelled, in the order of their types.
pub data AnyMessage : Type 0 where
  heart_beat_msg : HeartBeat → AnyMessage
  liveness_ping_msg : LivenessPing → AnyMessage
  liveness_pong_msg : LivenessPing → AnyMessage
  join_request_msg : JoinRequest → AnyMessage
  join_response_msg : JoinResponse → AnyMessage
  notify_successor_msg : HeartBeat → AnyMessage
  get_pred_msg : Message → AnyMessage
  pred_msg : Pred → AnyMessage
  get_successor_list_msg : Message → AnyMessage
  successor_list_msg : SuccessorList → AnyMessage
  link_break_msg : Message → AnyMessage
  publication_msg : Publication → AnyMessage
  linear_publication_msg : LinearPublication → AnyMessage
  ack_msg : HeartBeat → AnyMessage
  subscription_msg : Subscription → AnyMessage
  leave_msg : LeaveNotification → AnyMessage

-- `GetType`, the byte that `RegisterType` gave the class.
unfoldable pub type_of : AnyMessage → ℕ
type_of (heart_beat_msg m) = 0
type_of (liveness_ping_msg m) = 1
type_of (liveness_pong_msg m) = 2
type_of (join_request_msg m) = 3
type_of (join_response_msg m) = 4
type_of (notify_successor_msg m) = 5
type_of (get_pred_msg m) = 6
type_of (pred_msg m) = 7
type_of (get_successor_list_msg m) = 8
type_of (successor_list_msg m) = 9
type_of (link_break_msg m) = 12
type_of (publication_msg m) = 13
type_of (linear_publication_msg m) = 14
type_of (ack_msg m) = 15
type_of (subscription_msg m) = 16
type_of (leave_msg m) = 28

unfoldable pub header_of : AnyMessage → Message
header_of (heart_beat_msg m) = m.header
header_of (liveness_ping_msg m) = m.heart_beat.header
header_of (liveness_pong_msg m) = m.heart_beat.header
header_of (join_request_msg m) = m.header
header_of (join_response_msg m) = m.header
header_of (notify_successor_msg m) = m.header
header_of (get_pred_msg m) = m
header_of (pred_msg m) = m.header
header_of (get_successor_list_msg m) = m
header_of (successor_list_msg m) = m.header
header_of (link_break_msg m) = m
header_of (publication_msg m) = m.header
header_of (linear_publication_msg m) = m.publication.header
header_of (ack_msg m) = m.header
header_of (subscription_msg m) = m.header
header_of (leave_msg m) = m.header

-- The virtual `Serialize`.
pub serialize_message : AnyMessage → M (Unit {0})
serialize_message (heart_beat_msg m) = serialize_heart_beat m
serialize_message (liveness_ping_msg m) = serialize_ping m
serialize_message (liveness_pong_msg m) = serialize_ping m
serialize_message (join_request_msg m) = serialize_join_request m
serialize_message (join_response_msg m) = serialize_join_response m
serialize_message (notify_successor_msg m) = serialize_heart_beat m
serialize_message (get_pred_msg m) = Message.serialize m
serialize_message (pred_msg m) = serialize_pred m
serialize_message (get_successor_list_msg m) = Message.serialize m
serialize_message (successor_list_msg m) = serialize_successor_list m
serialize_message (link_break_msg m) = Message.serialize m
serialize_message (publication_msg m) = serialize_publication m
serialize_message (linear_publication_msg m) = serialize_linear_publication m
serialize_message (ack_msg m) = serialize_heart_beat m
serialize_message (subscription_msg m) = serialize_subscription m
serialize_message (leave_msg m) = serialize_leave m

-- The virtual `GetLength`.
pub get_length_message : AnyMessage → ℕ
get_length_message (heart_beat_msg m) = get_length_heart_beat m
get_length_message (liveness_ping_msg m) = get_length_ping m
get_length_message (liveness_pong_msg m) = get_length_ping m
get_length_message (join_request_msg m) = get_length_join_request m
get_length_message (join_response_msg m) = get_length_join_response m
get_length_message (notify_successor_msg m) = get_length_heart_beat m
get_length_message (get_pred_msg m) = Message.get_length m
get_length_message (pred_msg m) = get_length_pred m
get_length_message (get_successor_list_msg m) = Message.get_length m
get_length_message (successor_list_msg m) = get_length_successor_list m
get_length_message (link_break_msg m) = Message.get_length m
get_length_message (publication_msg m) = get_length_publication m
get_length_message (linear_publication_msg m) = get_length_linear_publication m
get_length_message (ack_msg m) = get_length_heart_beat m
get_length_message (subscription_msg m) = get_length_subscription m
get_length_message (leave_msg m) = get_length_leave m

pub as_class : {A O : Type 0} → (A → AnyMessage) → M A → M (AnyMessage ⊎ O)
as_class f r = do x ← r; pure (inl (f x))

-- The constructors in the order in which `RegisterMessageTypes` registers their classes, up to the
-- last that is modelled; `others` are the constructors of the other classes, by their type.
pub register_message_types : {O : Type 0} → (ℕ → M (AnyMessage ⊎ O)) → List (M (AnyMessage ⊎ O))
unfolding as_class
register_message_types others =
    as_class heart_beat_msg construct_heart_beat
    ∷ as_class liveness_ping_msg construct_ping
    ∷ as_class liveness_pong_msg construct_ping
    ∷ as_class join_request_msg construct_join_request
    ∷ as_class join_response_msg construct_join_response
    ∷ as_class notify_successor_msg construct_heart_beat
    ∷ as_class get_pred_msg Message.construct
    ∷ as_class pred_msg construct_pred
    ∷ as_class get_successor_list_msg Message.construct
    ∷ as_class successor_list_msg construct_successor_list
    ∷ others 10
    ∷ others 11
    ∷ as_class link_break_msg Message.construct
    ∷ as_class publication_msg construct_publication
    ∷ as_class linear_publication_msg construct_linear_publication
    ∷ as_class ack_msg construct_heart_beat
    ∷ as_class subscription_msg construct_subscription
    ∷ others 17
    ∷ others 18
    ∷ others 19
    ∷ others 20
    ∷ others 21
    ∷ others 22
    ∷ others 23
    ∷ others 24
    ∷ others 25
    ∷ others 26
    ∷ others 27
    ∷ as_class leave_msg construct_leave
    ∷ []

pub entry : {A : Type 0} → List A → A → ℕ → A
entry [] d t = d
entry (x ∷ xs) d zero = x
entry (x ∷ xs) d (suc t) = entry xs d t

-- `typeinfo`
pub typeinfo : {O : Type 0} → (ℕ → M (AnyMessage ⊎ O)) → ℕ → M (AnyMessage ⊎ O)
unfolding register_message_types
typeinfo others t = entry (register_message_types others) (others t) t

-- `CreateObject<Message>`, where the application has registered `app_types` classes of its own, up to
-- the 209 that the table has entries for. The number of classes, `type_pool`, is a byte.
pub create_message : {O : Type 0} → (ℕ → M (AnyMessage ⊎ O)) → ℕ → M (AnyMessage ⊎ O)
create_message others app_types = create_object ((47 + app_types) % 256) (typeinfo others)

-- The fields are in their ranges, and a response to a join request assigns a range.
abbrev pub IsWireMessage : AnyMessage → Type 0
IsWireMessage (heart_beat_msg m) = IsWireHeartBeat m
IsWireMessage (liveness_ping_msg m) = IsWirePing m
IsWireMessage (liveness_pong_msg m) = IsWirePing m
IsWireMessage (join_request_msg m) = IsWireJoinRequest m
IsWireMessage (join_response_msg m) = IsWireAssigned m
IsWireMessage (notify_successor_msg m) = IsWireHeartBeat m
IsWireMessage (get_pred_msg m) = HeaderWire.IsWire m
IsWireMessage (pred_msg m) = IsWirePred m
IsWireMessage (get_successor_list_msg m) = HeaderWire.IsWire m
IsWireMessage (successor_list_msg m) = IsWireSuccessorList m
IsWireMessage (link_break_msg m) = HeaderWire.IsWire m
IsWireMessage (publication_msg m) = IsWirePublication m
IsWireMessage (linear_publication_msg m) = IsWireLinearPublication m
IsWireMessage (ack_msg m) = IsWireHeartBeat m
IsWireMessage (subscription_msg m) = IsWireSubscription m
IsWireMessage (leave_msg m) = IsWireLeave m
