-- ===== src/Interest/Wire.antt =====
-- Interests on the wire.
use distributed_games.TimeVal.{time_none}
use distributed_games.Base.{ℕ, ◌≤◌, ◌<◌, ◌≡◌, some, [], ◌∷◌, ◌++◌, arith, refl}
use distributed_games.Packet.{int_bytes}
use distributed_games.Packet.Codec.{IsCodec, FitsWord, list_codec, length-then, round_trip}
use distributed_games.Packet.Transmit.{arrives}
use distributed_games.Packet.Writes.{Writes-then, Writes-byte, Writes-int, length-int_bytes}
use distributed_games.Packet.Reads.{Reads-eq, Reads-bind, Reads-map, Reads-byte, Reads-int}
use distributed_games.AutoSerializer.{Reads-create_object}
use distributed_games.Address.Wire.{IsWireGuid, guid_codec}
use distributed_games.Address.Wire as AddressWire
use distributed_games.Constraint.Wire as ConstraintWire
use distributed_games.Interest.{Interest, serialize, construct, create_interest, get_length}

-- The fields that are sent are machine words.
abbrev pub HasWords : Interest → Type 0
HasWords i =
    AddressWire.IsWire i.subscriber
    × IsWireGuid i.guid
    × FitsWord ConstraintWire.IsWire i.constraints
    × (i.lifetime < 4294967296)
    × (i.nonce < 4294967296)

-- The time of death, which is not sent, is `TIME_NONE`.
abbrev pub IsWire : Interest → Type 0
IsWire i = HasWords i × (i.death_time ≡ time_none)

pub codec : IsCodec serialize create_interest get_length IsWire
unfolding serialize get_length create_interest construct
codec = record {
  bytes = λ i.
      (0 ∷ [])
      ++ (AddressWire.codec.bytes i.subscriber
          ++ (guid_codec.bytes i.guid
              ++ ((list_codec ConstraintWire.codec).bytes i.constraints
                  ++ (int_bytes i.lifetime ++ int_bytes i.nonce))));
  writes = λ i h. Writes-then (Writes-byte 0) (
      Writes-then (AddressWire.codec.writes i.subscriber h.0.0) (
        Writes-then (guid_codec.writes i.guid h.0.1) (
          Writes-then ((list_codec ConstraintWire.codec).writes i.constraints h.0.2)
            (Writes-then (Writes-int i.lifetime) (Writes-int i.nonce)))));
  reads = λ i h. Reads-create_object 1 _ 0 (omega arith) (
      Reads-eq (ground arith) (
        Reads-bind _ (Reads-byte 0) (
          Reads-bind _ (AddressWire.codec.reads i.subscriber h.0.0) (
            Reads-bind _ (guid_codec.reads i.guid h.0.1) (
              Reads-bind _ ((list_codec ConstraintWire.codec).reads i.constraints h.0.2) (
                Reads-bind _ (Reads-int i.lifetime h.0.3)
                  (Reads-map _ (Reads-int i.nonce h.0.4))))))));
  sized = λ i h. omega (
    arith,
    length-then (0 ∷ []) _ refl (
        length-then _ _ (AddressWire.codec.sized i.subscriber h.0.0) (
          length-then _ _ (guid_codec.sized i.guid h.0.1) (
            length-then _ _ ((list_codec ConstraintWire.codec).sized i.constraints h.0.2)
              (length-then _ _ (length-int_bytes i.lifetime) (length-int_bytes i.nonce))))),
  );
}

-- An interest in a packet with the room that it asks for arrives as it was, but for its time of
-- death, which is not sent. Fields that are sent are in their ranges.
pub interest_round_trip :
    (n : ℕ) (i : Interest)
    → HasWords i
    → get_length i ≤ n
    → arrives n (serialize i) create_interest ≡ some (record i { death_time = time_none })
unfolding serialize get_length
interest_round_trip n i h fits =
    round_trip codec n (record i { death_time = time_none }) (h, refl) fits
