-- ===== src/Address/Wire.antt =====
-- Addresses and GUIDs on the wire, and their equality.
use distributed_games.Base.{◌<◌, ◌≡◌, ◌↔◌, true, ◌++◌, arith, ℕ, ◌≤◌, some}
use distributed_games.Packet.{int_bytes, short_bytes, native_bytes}
use distributed_games.Packet.Codec.{IsCodec, round_trip}
use distributed_games.Packet.Transmit.{arrives}
use distributed_games.Packet.Writes.{
  Writes-then, Writes-int, Writes-short, Writes-int_no_swap, byte_counts,
}
use distributed_games.Packet.Reads.{
  Reads-bind, Reads-map, Reads-int, Reads-short, Reads-int_no_swap,
}
use distributed_games.Address.{
  IpEndPoint, equals, serialize, construct, get_length, Guid, equals_guid, serialize_guid,
  construct_guid, get_length_guid,
}

-- The fields are machine words.
abbrev pub IsWire : IpEndPoint → Type 0
IsWire e = (e.ip < 4294967296) × (e.port < 65536)

pub codec : IsCodec serialize construct get_length IsWire
unfolding serialize construct get_length
codec = record {
  bytes = λ e. native_bytes e.ip ++ short_bytes e.port;
  writes = λ e h. Writes-then (Writes-int_no_swap e.ip) (Writes-short e.port);
  reads = λ e h. Reads-bind _ (Reads-int_no_swap e.ip h.0) (Reads-map _ (Reads-short e.port h.1));
  sized = λ e h. simp byte_counts;
}

abbrev pub IsWireGuid : Guid → Type 0
IsWireGuid g = (g.ip < 4294967296) × (g.port < 65536) × (g.local_oid < 4294967296)

pub guid_codec : IsCodec serialize_guid construct_guid get_length_guid IsWireGuid
unfolding serialize_guid construct_guid get_length_guid
guid_codec = record {
  bytes = λ g. int_bytes g.ip ++ (short_bytes g.port ++ int_bytes g.local_oid);
  writes = λ g h.
      Writes-then (Writes-int g.ip) (Writes-then (Writes-short g.port) (Writes-int g.local_oid));
  reads = λ g h.
      Reads-bind _ (Reads-int g.ip h.0)
        (Reads-bind _ (Reads-short g.port h.1) (Reads-map _ (Reads-int g.local_oid h.2)));
  sized = λ g h. simp byte_counts;
}

pub equals_iff : (a b : IpEndPoint) → (equals a b ≡ true) ↔ (a ≡ b)
unfolding equals
equals_iff a b = (λ h. ground arith, λ e. ground arith)

pub equals_guid_iff : (a b : Guid) → (equals_guid a b ≡ true) ↔ (a ≡ b)
unfolding equals_guid
equals_guid_iff a b = (λ h. ground arith, λ e. ground arith)

-- A GUID of machine words arrives as it was in a packet with the room that it asks for.
pub guid_round_trip :
    (n : ℕ) (g : Guid)
    → IsWireGuid g
    → get_length_guid g ≤ n
    → arrives n (serialize_guid g) construct_guid ≡ some g
guid_round_trip n g h fits = round_trip guid_codec n g h fits
