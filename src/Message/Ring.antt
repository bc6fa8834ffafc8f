-- ===== src/Message/Ring.antt =====
-- mercury/Message.h and mercury/Message.cpp: the messages that keep the ring together. Heartbeats
-- (`MsgHeartBeat`, and with the same fields `MsgNotifySuccessor` and `MsgAck`), liveness pings and
-- pongs, the predecessor and the successor list.
use distributed_games.Base.{ℕ, ◌+◌, ◌∷◌, [], ◌++◌, refl, ◌≤◌, ◌≡◌, some}
use distributed_games.Packet.{M, pure, ◌>>=◌, ◌>>◌, write_byte, read_byte}
use distributed_games.Packet.Codec.{Begins, Begins-append, IsCodec, length-then, round_trip}
use distributed_games.Packet.Transmit.{arrives}
use distributed_games.Packet.Writes.{Writes-then, Writes-byte}
use distributed_games.Packet.Reads.{Reads-bind, Reads-map, Reads-byte}
use distributed_games.Address.{IpEndPoint}
use distributed_games.Address
use distributed_games.Address.Wire as AddressWire
use distributed_games.Constraint.{NodeRange}
use distributed_games.Constraint
use distributed_games.Constraint.Wire as ConstraintWire
use distributed_games.Message.{Message}
use distributed_games.Message
use distributed_games.Message.Wire as HeaderWire

pub record HeartBeat : Type 0 where
  pub header : Message
  pub range : NodeRange

pub serialize_heart_beat : HeartBeat → M (Unit {0})
serialize_heart_beat m = do Message.serialize m.header; Constraint.serialize m.range

pub construct_heart_beat : M HeartBeat
construct_heart_beat = do
  header ← Message.construct
  range ← Constraint.construct
  pure (record { header = header; range = range })

pub get_length_heart_beat : HeartBeat → ℕ
get_length_heart_beat m = Message.get_length m.header + Constraint.get_length m.range

abbrev pub IsWireHeartBeat : HeartBeat → Type 0
IsWireHeartBeat m = HeaderWire.IsWire m.header × ConstraintWire.IsWire m.range

pub heart_beat_codec :
    IsCodec serialize_heart_beat construct_heart_beat get_length_heart_beat IsWireHeartBeat
unfolding serialize_heart_beat construct_heart_beat get_length_heart_beat
heart_beat_codec = record {
  bytes = λ m. HeaderWire.codec.bytes m.header ++ ConstraintWire.codec.bytes m.range;
  writes = λ m h.
      Writes-then (HeaderWire.codec.writes m.header h.0) (ConstraintWire.codec.writes m.range h.1);
  reads = λ m h.
      Reads-bind _ (HeaderWire.codec.reads m.header h.0)
        (Reads-map _ (ConstraintWire.codec.reads m.range h.1));
  sized = λ m h.
      length-then _ _ (HeaderWire.codec.sized m.header h.0)
        (ConstraintWire.codec.sized m.range h.1);
}

pub heart_beat_codec-Begins : (m : HeartBeat) → Begins m.header.type (heart_beat_codec.bytes m)
unfolding heart_beat_codec
heart_beat_codec-Begins m = Begins-append _ (HeaderWire.codec-Begins m.header)

-- `MsgLivenessPing`; `MsgLivenessPong` adds nothing. `peertype` is a set of bits.
pub record LivenessPing : Type 0 where
  pub heart_beat : HeartBeat
  pub seqno : ℕ
  pub peertype : ℕ

pub serialize_ping : LivenessPing → M (Unit {0})
serialize_ping m = do serialize_heart_beat m.heart_beat; write_byte m.seqno; write_byte m.peertype

pub construct_ping : M LivenessPing
construct_ping = do
  heart_beat ← construct_heart_beat
  seqno ← read_byte
  peertype ← read_byte
  pure (record { heart_beat = heart_beat; seqno = seqno; peertype = peertype })

pub get_length_ping : LivenessPing → ℕ
get_length_ping m = get_length_heart_beat m.heart_beat + (1 + 1)

abbrev pub IsWirePing : LivenessPing → Type 0
IsWirePing m = IsWireHeartBeat m.heart_beat

pub ping_codec : IsCodec serialize_ping construct_ping get_length_ping IsWirePing
unfolding serialize_ping construct_ping get_length_ping
ping_codec = record {
  bytes = λ m. heart_beat_codec.bytes m.heart_beat ++ ((m.seqno ∷ []) ++ (m.peertype ∷ []));
  writes = λ m h.
      Writes-then (heart_beat_codec.writes m.heart_beat h)
        (Writes-then (Writes-byte m.seqno) (Writes-byte m.peertype));
  reads = λ m h.
      Reads-bind _ (heart_beat_codec.reads m.heart_beat h)
        (Reads-bind _ (Reads-byte m.seqno) (Reads-map _ (Reads-byte m.peertype)));
  sized = λ m h. length-then _ _ (heart_beat_codec.sized m.heart_beat h) refl;
}

pub ping_codec-Begins : (m : LivenessPing) → Begins m.heart_beat.header.type (ping_codec.bytes m)
unfolding ping_codec
ping_codec-Begins m = Begins-append _ (heart_beat_codec-Begins m.heart_beat)

pub record Pred : Type 0 where
  pub header : Message
  pub pred : IpEndPoint
  pub predrange : NodeRange
  pub currange : NodeRange

pub serialize_pred : Pred → M (Unit {0})
serialize_pred m = do
  Message.serialize m.header
  Address.serialize m.pred
  Constraint.serialize m.predrange
  Constraint.serialize m.currange

pub construct_pred : M Pred
construct_pred = do
  header ← Message.construct
  pred ← Address.construct
  predrange ← Constraint.construct
  currange ← Constraint.construct
  pure (record { header = header; pred = pred; predrange = predrange; currange = currange })

pub get_length_pred : Pred → ℕ
get_length_pred m =
    Message.get_length m.header
    + (Address.get_length m.pred
        + (Constraint.get_length m.predrange + Constraint.get_length m.currange))

abbrev pub IsWirePred : Pred → Type 0
IsWirePred m =
    HeaderWire.IsWire m.header
    × AddressWire.IsWire m.pred
    × ConstraintWire.IsWire m.predrange
    × ConstraintWire.IsWire m.currange

pub pred_codec : IsCodec serialize_pred construct_pred get_length_pred IsWirePred
unfolding serialize_pred construct_pred get_length_pred
pred_codec = record {
  bytes = λ m.
      HeaderWire.codec.bytes m.header
      ++ (AddressWire.codec.bytes m.pred
          ++ (ConstraintWire.codec.bytes m.predrange ++ ConstraintWire.codec.bytes m.currange));
  writes = λ m h. Writes-then (HeaderWire.codec.writes m.header h.0) (
      Writes-then (AddressWire.codec.writes m.pred h.1) (
        Writes-then (ConstraintWire.codec.writes m.predrange h.2)
          (ConstraintWire.codec.writes m.currange h.3)));
  reads = λ m h. Reads-bind _ (HeaderWire.codec.reads m.header h.0) (
      Reads-bind _ (AddressWire.codec.reads m.pred h.1) (
        Reads-bind _ (ConstraintWire.codec.reads m.predrange h.2)
          (Reads-map _ (ConstraintWire.codec.reads m.currange h.3))));
  sized = λ m h. length-then _ _ (HeaderWire.codec.sized m.header h.0) (
      length-then _ _ (AddressWire.codec.sized m.pred h.1) (
        length-then _ _ (ConstraintWire.codec.sized m.predrange h.2)
          (ConstraintWire.codec.sized m.currange h.3)));
}

pub pred_codec-Begins : (m : Pred) → Begins m.header.type (pred_codec.bytes m)
unfolding pred_codec
pred_codec-Begins m = Begins-append _ (HeaderWire.codec-Begins m.header)

-- A liveness ping arrives as it was in a packet with the room that it asks for. Fields are in their
-- ranges.
pub ping_round_trip :
    (n : ℕ) (m : LivenessPing)
    → IsWirePing m
    → get_length_ping m ≤ n
    → arrives n (serialize_ping m) construct_ping ≡ some m
ping_round_trip n m h fits = round_trip ping_codec n m h fits

-- A predecessor message arrives as it was in a packet with the room that it asks for. Fields are in
-- their ranges.
pub pred_round_trip :
    (n : ℕ) (m : Pred)
    → IsWirePred m
    → get_length_pred m ≤ n
    → arrives n (serialize_pred m) construct_pred ≡ some m
pred_round_trip n m h fits = round_trip pred_codec n m h fits
