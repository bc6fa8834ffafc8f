-- ===== src/Message/Transfer.antt =====
-- `MsgSubscriptionList`, `MsgTriggerList` and `MsgLeaveNotification` (mercury/Message.cpp): what a node
-- that leaves or gives up a part of its range hands to another.
use distributed_games.Base.{ℕ, ◌+◌, ◌≤◌, ◌<◌, ◌≡◌, some, List, ◌++◌}
use distributed_games.Packet.{
  M, pure, ◌>>=◌, ◌>>◌, int_bytes, write_float, read_float, write_list, read_list_int, lengths,
}
use distributed_games.Packet.Codec.{
  Begins, Begins-append, IsCodec, FitsInt, list_codec_int, length-then, round_trip,
}
use distributed_games.Packet.Transmit.{arrives}
use distributed_games.Packet.Writes.{Writes-then, Writes-float, length-int_bytes}
use distributed_games.Packet.Reads.{Reads-bind, Reads-map, Reads-float}
use distributed_games.Constraint.{NodeRange}
use distributed_games.Constraint
use distributed_games.Constraint.Wire as ConstraintWire
use distributed_games.Interest.{Interest, create_interest}
use distributed_games.Interest
use distributed_games.Interest.Wire as InterestWire
use distributed_games.Message.{Message}
use distributed_games.Message
use distributed_games.Message.Wire as HeaderWire
use distributed_games.Message.Routing.{
  Publication, serialize_publication, construct_publication, get_length_publication,
  IsWirePublication, publication_codec,
}

pub record LeaveNotification : Type 0 where
  pub header : Message
  pub assigned_range : NodeRange
  pub addload : ℕ
  pub triggers : List Publication
  pub subscriptions : List Interest

pub serialize_leave : LeaveNotification → M (Unit {0})
serialize_leave m = do
  Message.serialize m.header
  Constraint.serialize m.assigned_range
  write_float m.addload
  write_list serialize_publication m.triggers
  write_list Interest.serialize m.subscriptions

pub construct_leave : M LeaveNotification
construct_leave = do
  header ← Message.construct
  assigned_range ← Constraint.construct
  addload ← read_float
  triggers ← read_list_int construct_publication
  subscriptions ← read_list_int create_interest
  pure (record {
    header = header;
    assigned_range = assigned_range;
    addload = addload;
    triggers = triggers;
    subscriptions = subscriptions;
  })

pub get_length_leave : LeaveNotification → ℕ
get_length_leave m =
    Message.get_length m.header
    + (Constraint.get_length m.assigned_range
        + (4
            + ((4 + lengths get_length_publication m.triggers)
                + (4 + lengths Interest.get_length m.subscriptions))))

abbrev pub IsWireLeave : LeaveNotification → Type 0
IsWireLeave m =
    HeaderWire.IsWire m.header
    × ConstraintWire.IsWire m.assigned_range
    × (m.addload < 4294967296)
    × FitsInt IsWirePublication m.triggers
    × FitsInt InterestWire.IsWire m.subscriptions

pub leave_codec : IsCodec serialize_leave construct_leave get_length_leave IsWireLeave
unfolding serialize_leave construct_leave get_length_leave
leave_codec =
    let pubs = list_codec_int publication_codec in
    let subs = list_codec_int InterestWire.codec in
    record {
      bytes = λ m.
          HeaderWire.codec.bytes m.header
          ++ (ConstraintWire.codec.bytes m.assigned_range
              ++ (int_bytes m.addload ++ (pubs.bytes m.triggers ++ subs.bytes m.subscriptions)));
      writes = λ m h. Writes-then (HeaderWire.codec.writes m.header h.0) (
          Writes-then (ConstraintWire.codec.writes m.assigned_range h.1) (
            Writes-then (Writes-float m.addload)
              (Writes-then (pubs.writes m.triggers h.3) (subs.writes m.subscriptions h.4))));
      reads = λ m h. Reads-bind _ (HeaderWire.codec.reads m.header h.0) (
          Reads-bind _ (ConstraintWire.codec.reads m.assigned_range h.1) (
            Reads-bind _ (Reads-float m.addload h.2) (
              Reads-bind _ (pubs.reads m.triggers h.3)
                (Reads-map _ (subs.reads m.subscriptions h.4)))));
      sized = λ m h. length-then _ _ (HeaderWire.codec.sized m.header h.0) (
          length-then _ _ (ConstraintWire.codec.sized m.assigned_range h.1) (
            length-then _ _ (length-int_bytes m.addload)
              (length-then _ _ (pubs.sized m.triggers h.3) (subs.sized m.subscriptions h.4))));
    }

pub leave_codec-Begins : (m : LeaveNotification) → Begins m.header.type (leave_codec.bytes m)
unfolding leave_codec
leave_codec-Begins m = Begins-append _ (HeaderWire.codec-Begins m.header)

-- What a node hands over when it leaves (its range, load, publications and subscriptions) arrives
-- whole in a packet with the room that it asks for. Fields are in their ranges.
pub leave_round_trip :
    (n : ℕ) (m : LeaveNotification)
    → IsWireLeave m
    → get_length_leave m ≤ n
    → arrives n (serialize_leave m) construct_leave ≡ some m
leave_round_trip n m h fits = round_trip leave_codec n m h fits
