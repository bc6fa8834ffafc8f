-- ===== src/Tests/Messages.antt =====
-- Messages on the wire.
use distributed_games.Base.{
  ℕ, ◌⊎◌, inl, inr, ltb, none, if◌then◌else◌, ◌≡◌, true, false, pos, refl, some, [], ◌∷◌, arith,
}
use distributed_games.Packet.Transmit.{arrives}
use distributed_games.Message.Ring.{LivenessPing, Pred}
use distributed_games.Message.Successors.{PeerInfo, SuccessorList}
use distributed_games.Message.Join.{JoinRequest}
use distributed_games.Message.JoinResponse.{JoinResponse}
use distributed_games.Message.Routing.{LinearPublication, Subscription}
use distributed_games.Message.Transfer.{LeaveNotification}
use distributed_games.Packet.{M, pure}
use distributed_games.Message.Protocol.{
  AnyMessage, leave_msg, serialize_message, get_length_message, create_message,
}
use distributed_games.Message.Protocol.Arrival.{message_round_trip}
use distributed_games.Tests.Samples.{
  node, span, header, publication, interest, span_IsWire, publication_IsWire, interest_IsWire,
}

abbrev ping : LivenessPing
ping = record { heart_beat = record { header = header; range = span }; seqno = 3; peertype = 1 }

abbrev pred : Pred
pred = record { header = header; pred = node; predrange = span; currange = span }

abbrev peer : PeerInfo
peer = record { addr = node; range = span }

abbrev successors : SuccessorList
successors = record { header = header; sil = peer ∷ peer ∷ [] }

abbrev request : JoinRequest
request = record {
  header = header;
  usedesired = true;
  desiredmax = pos 100;
  is_lb_leavejoin = false;
}

abbrev response : JoinResponse
response = record {
  header = header;
  e_error = 0;
  assigned_range = some span;
  succ_is_only_node = true;
  sil = peer ∷ [];
  is_lb_leavejoin = false;
  load = 1065353216;
}

abbrev linear_publication : LinearPublication
linear_publication = record { publication = publication; stopval = pos 100 }

abbrev subscription : Subscription
subscription = record { header = header; creator = node; metadata = 2; interest = interest }

abbrev leave : LeaveNotification
leave = record {
  header = header;
  assigned_range = span;
  addload = 0;
  triggers = publication ∷ [];
  subscriptions = interest ∷ [];
}

abbrev typed_leave : LeaveNotification
typed_leave = record leave { header = record header { type = 28 } }

-- Constructors of the other classes that do not look at the packet.
abbrev others : ℕ → M (AnyMessage ⊎ ℕ)
others t = pure (inr t)

message_round_trip_example :
    arrives 300 (serialize_message (leave_msg typed_leave)) (create_message others 2) ≡ (
      if ltb 300 (get_length_message (leave_msg typed_leave))
      then none
      else some (inl (leave_msg typed_leave)))
unfolding distributed_games.Message.Protocol.type_of distributed_games.Message.Protocol.header_of
message_round_trip_example =
    message_round_trip others 2 300 (leave_msg typed_leave) (omega arith) refl (
      (
        omega arith,
        (omega arith, omega arith),
        omega arith,
        omega arith,
        λ e. absurd (ground arith),
      ),
      span_IsWire,
      omega arith,
      (omega arith, (publication_IsWire, tt)),
      (omega arith, (interest_IsWire, tt)),
    )
