-- ===== src/Message/Wire.antt =====
-- The header on the wire.
use distributed_games.Base.{
  ℕ, ◌<◌, ◌≡◌, false, Bool-cases, inl, inr, List, [], ◌∷◌, ◌++◌, ◌==◌, if◌then◌else◌, arith, refl,
  length,
}
use distributed_games.Packet.{int_bytes, short_bytes}
use distributed_games.Packet.Codec.{Begins, IsCodec, length-then}
use distributed_games.Packet.Writes.{
  Writes, Writes-then, Writes-byte, Writes-short, Writes-int, Writes-pure, length-int_bytes,
  length-short_bytes,
}
use distributed_games.Packet.Reads.{
  Reads, Reads-bind, Reads-map, Reads-pure, Reads-byte, Reads-short, Reads-int,
}
use distributed_games.Address.Wire as AddressWire
use distributed_games.Message.{
  Message, msg_invalid, is_merc_msg, serialize_hub_id, serialize, construct_hub_id, construct,
  get_length,
}

-- The fields are machine words, the type is valid, and a message of an application has no hub.
abbrev pub IsWire : Message → Type 0
IsWire m =
    (m.type < msg_invalid)
    × AddressWire.IsWire m.sender
    × (m.hop_count < 65536)
    × (m.nonce < 4294967296)
    × (is_merc_msg m.type ≡ false → m.hub_id ≡ 0)

hub_bytes : Message → List ℕ
hub_bytes m = if is_merc_msg m.type then m.hub_id ∷ [] else []

Writes-hub_id : (m : Message) → Writes (serialize_hub_id m) (hub_bytes m)
unfolding serialize_hub_id hub_bytes
Writes-hub_id m = elim (Bool-cases (is_merc_msg m.type)) [
  | inl e ↦ rw e (Writes-byte m.hub_id)
  | inr e ↦ rw e Writes-pure
]

Reads-hub_id : (m : Message) → IsWire m → Reads (construct_hub_id m.type) (hub_bytes m) m.hub_id
unfolding construct_hub_id hub_bytes
Reads-hub_id m h = elim (Bool-cases (is_merc_msg m.type)) [
  | inl e ↦ rw e (Reads-byte m.hub_id)
  | inr e ↦ rw (e, h.4 e) (Reads-pure 0)
]

length-hub_bytes : (m : Message) → length (hub_bytes m) ≡ (if is_merc_msg m.type then 1 else 0)
unfolding hub_bytes
length-hub_bytes m = ground arith

valid : (m : Message) → IsWire m → (m.type == msg_invalid) ≡ false
valid m h = ground arith

pub codec : IsCodec serialize construct get_length IsWire
unfolding serialize construct get_length
codec = record {
  bytes = λ m.
      (m.type ∷ [])
      ++ (AddressWire.codec.bytes m.sender
          ++ (hub_bytes m ++ (short_bytes m.hop_count ++ int_bytes m.nonce)));
  writes = λ m h. rw (valid m h) (
      Writes-then (Writes-byte m.type) (
        Writes-then (AddressWire.codec.writes m.sender h.1) (
          Writes-then (Writes-hub_id m)
            (Writes-then (Writes-short m.hop_count) (Writes-int m.nonce)))));
  reads = λ m h. Reads-bind _ (Reads-byte m.type) (
      Reads-bind _ (AddressWire.codec.reads m.sender h.1) (
        Reads-bind _ (Reads-hub_id m h)
          (Reads-bind _ (Reads-short m.hop_count h.2) (Reads-map _ (Reads-int m.nonce h.3)))));
  sized = λ m h. length-then (m.type ∷ []) _ refl (
      length-then _ _ (AddressWire.codec.sized m.sender h.1) (
        length-then _ _ (length-hub_bytes m)
          (length-then _ _ (length-short_bytes m.hop_count) (length-int_bytes m.nonce))));
}

pub codec-Begins : (m : Message) → Begins m.type (codec.bytes m)
unfolding codec
codec-Begins m = (_, refl)
