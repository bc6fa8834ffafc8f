-- ===== src/Message/Successors.antt =====
-- `PeerInfo` (mercury/Peer.h) and `MsgSuccessorList` (mercury/Message.cpp): nodes and their ranges, as
-- one node tells them to another.
use distributed_games.Base.{ℕ, ◌+◌, List, [], ◌∷◌, ◌++◌, ◌≤◌, ◌≡◌, some}
use distributed_games.Packet.{M, pure, ◌>>=◌, ◌>>◌, write_list, read_list_int, lengths}
use distributed_games.Packet.Codec.{
  Begins, Begins-append, IsCodec, FitsInt, list_codec_int, length-then, round_trip,
}
use distributed_games.Packet.Transmit.{arrives}
use distributed_games.Packet.Writes.{Writes-then}
use distributed_games.Packet.Reads.{Reads-bind, Reads-map}
use distributed_games.Address.{IpEndPoint}
use distributed_games.Address
use distributed_games.Address.Wire as AddressWire
use distributed_games.Constraint.{NodeRange, range_none}
use distributed_games.Constraint
use distributed_games.Constraint.Wire as ConstraintWire
use distributed_games.Message.{Message}
use distributed_games.Message
use distributed_games.Message.Wire as HeaderWire

pub record PeerInfo : Type 0 where
  pub addr : IpEndPoint
  pub range : NodeRange

pub serialize_peer_info : PeerInfo → M (Unit {0})
serialize_peer_info p = do Address.serialize p.addr; Constraint.serialize p.range

pub construct_peer_info : M PeerInfo
construct_peer_info = do
  addr ← Address.construct
  range ← Constraint.construct
  pure (record { addr = addr; range = range })

pub get_length_peer_info : PeerInfo → ℕ
get_length_peer_info p = Address.get_length p.addr + Constraint.get_length p.range

abbrev pub IsWirePeerInfo : PeerInfo → Type 0
IsWirePeerInfo p = AddressWire.IsWire p.addr × ConstraintWire.IsWire p.range

pub peer_info_codec :
    IsCodec serialize_peer_info construct_peer_info get_length_peer_info IsWirePeerInfo
unfolding serialize_peer_info construct_peer_info get_length_peer_info
peer_info_codec = record {
  bytes = λ p. AddressWire.codec.bytes p.addr ++ ConstraintWire.codec.bytes p.range;
  writes = λ p h.
      Writes-then (AddressWire.codec.writes p.addr h.0) (ConstraintWire.codec.writes p.range h.1);
  reads = λ p h.
      Reads-bind _ (AddressWire.codec.reads p.addr h.0)
        (Reads-map _ (ConstraintWire.codec.reads p.range h.1));
  sized = λ p h.
      length-then _ _ (AddressWire.codec.sized p.addr h.0) (ConstraintWire.codec.sized p.range h.1);
}

pub record SuccessorList : Type 0 where
  pub header : Message
  pub sil : List PeerInfo

-- `AddSuccessor`
pub add_successor : SuccessorList → IpEndPoint → NodeRange → SuccessorList
add_successor m a r = record m { sil = m.sil ++ (record { addr = a; range = r } ∷ []) }

pub serialize_successor_list : SuccessorList → M (Unit {0})
serialize_successor_list m = do Message.serialize m.header; write_list serialize_peer_info m.sil

pub construct_successor_list : M SuccessorList
construct_successor_list = do
  header ← Message.construct
  sil ← read_list_int construct_peer_info
  pure (record { header = header; sil = sil })

pub get_length_successor_list : SuccessorList → ℕ
get_length_successor_list m = Message.get_length m.header + (4 + lengths get_length_peer_info m.sil)

abbrev pub IsWireSuccessorList : SuccessorList → Type 0
IsWireSuccessorList m = HeaderWire.IsWire m.header × FitsInt IsWirePeerInfo m.sil

pub successor_list_codec :
    IsCodec serialize_successor_list construct_successor_list get_length_successor_list
      IsWireSuccessorList
unfolding serialize_successor_list construct_successor_list get_length_successor_list
successor_list_codec =
    let peers = list_codec_int peer_info_codec in
    record {
      bytes = λ m. HeaderWire.codec.bytes m.header ++ peers.bytes m.sil;
      writes = λ m h. Writes-then (HeaderWire.codec.writes m.header h.0) (peers.writes m.sil h.1);
      reads = λ m h.
          Reads-bind _ (HeaderWire.codec.reads m.header h.0) (Reads-map _ (peers.reads m.sil h.1));
      sized = λ m h. length-then _ _ (HeaderWire.codec.sized m.header h.0) (peers.sized m.sil h.1);
    }

pub successor_list_codec-Begins :
    (m : SuccessorList) → Begins m.header.type (successor_list_codec.bytes m)
unfolding successor_list_codec
successor_list_codec-Begins m = Begins-append _ (HeaderWire.codec-Begins m.header)

-- A successor list of fewer than 2^31 entries arrives as it was, in its order, in a packet with the
-- room that it asks for. Fields are in their ranges.
pub successor_list_round_trip :
    (n : ℕ) (m : SuccessorList)
    → IsWireSuccessorList m
    → get_length_successor_list m ≤ n
    → arrives n (serialize_successor_list m) construct_successor_list ≡ some m
successor_list_round_trip n m h fits = round_trip successor_list_codec n m h fits
