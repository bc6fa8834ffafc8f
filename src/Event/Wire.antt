-- ===== src/Event/Wire.antt =====
-- Events on the wire.
use distributed_games.TimeVal.{time_none}
use distributed_games.Base.{
  ℕ, ◌≤◌, ◌<◌, ◌≡◌, true, false, some, List, [], ◌∷◌, ◌++◌, arith, refl, length, if◌then◌else◌,
  ◌==◌,
}
use distributed_games.Packet.{int_bytes, bool_byte, bool_byte}
use distributed_games.Packet.Codec.{IsCodec, FitsWord, list_codec, length-then, round_trip}
use distributed_games.Packet.Transmit.{arrives}
use distributed_games.Packet.Writes.{Writes, Writes-then, Writes-byte, Writes-bool, Writes-int}
use distributed_games.Packet.Reads.{
  Reads, Reads-bind, Reads-eq, Reads-map, Reads-byte, Reads-bool, Reads-int,
}
use distributed_games.AutoSerializer.{Reads-create_object}
use distributed_games.Constraint.Wire as ConstraintWire
use distributed_games.Event.{
  Event, serialize, serialize_base, construct, construct_base, create_event, get_length,
  get_length_base,
}

-- The fields that are sent are machine words.
abbrev pub HasWords : Event → Type 0
HasWords e =
    FitsWord ConstraintWire.IsWire e.constraints
    × (e.nonce < 4294967296)
    × (e.lifetime < 4294967296)

-- The fields that are not sent are as in a new event.
abbrev pub IsWire : Event → Type 0
IsWire e = HasWords e × (e.death_time ≡ time_none) × (e.trigger_count ≡ 0)

-- A constructor is called for its own type.
type_kept : (e : Event) → (if bool_byte e.is_point == 0 then false else true) ≡ e.is_point
unfolding bool_byte
type_kept e = ground arith

type_known : (e : Event) → bool_byte e.is_point < 2
unfolding bool_byte
type_known e = ground arith

base_bytes : Event → List ℕ
base_bytes e =
    bool_byte e.is_point
    ∷ (int_bytes e.nonce ++ (int_bytes e.lifetime ++ (bool_byte e.matched ∷ [])))

length-base_bytes : (e : Event) → length (base_bytes e) ≡ get_length_base
unfolding base_bytes get_length_base int_bytes
length-base_bytes e = refl

Writes-serialize_base : (e : Event) → Writes (serialize_base e) (base_bytes e)
unfolding serialize_base base_bytes
Writes-serialize_base e =
    Writes-then (Writes-byte (bool_byte e.is_point)) (
      Writes-then (Writes-int e.nonce)
        (Writes-then (Writes-int e.lifetime) (Writes-bool e.matched)))

Reads-construct_base :
    (e : Event)
    → IsWire e
    → Reads (construct_base e.is_point) (base_bytes e) (record e { constraints = [] })
unfolding construct_base base_bytes
Reads-construct_base e h = Reads-eq (ground arith) (
    Reads-bind _ (Reads-byte (bool_byte e.is_point)) (
      Reads-bind _ (Reads-int e.nonce h.0.1)
        (Reads-bind _ (Reads-int e.lifetime h.0.2) (Reads-map _ (Reads-bool e.matched)))))

Reads-construct :
    (e : Event)
    → IsWire e
    → Reads
        (construct e.is_point)
        (base_bytes e ++ (list_codec ConstraintWire.codec).bytes e.constraints)
        e
unfolding construct
Reads-construct e h =
    Reads-bind _ (Reads-construct_base e h)
      (Reads-map _ ((list_codec ConstraintWire.codec).reads e.constraints h.0.0))

pub codec : IsCodec serialize create_event get_length IsWire
unfolding serialize get_length get_length_base create_event base_bytes
codec = record {
  bytes = λ e. base_bytes e ++ (list_codec ConstraintWire.codec).bytes e.constraints;
  writes = λ e h.
      Writes-then (Writes-serialize_base e)
        ((list_codec ConstraintWire.codec).writes e.constraints h.0.0);
  reads = λ e h.
      Reads-create_object 2 _ (bool_byte e.is_point) (type_known e)
        (rw (type_kept e) (Reads-construct e h));
  sized = λ e h.
      length-then (base_bytes e) _ (length-base_bytes e)
        ((list_codec ConstraintWire.codec).sized e.constraints h.0.0);
}

-- An event in a packet with the room that it asks for arrives as it was, with its class, but for
-- its time of death and its trigger count, which are not sent. Fields that are sent are in their
-- ranges.
pub event_round_trip :
    (n : ℕ) (e : Event)
    → HasWords e
    → get_length e ≤ n
    → arrives n (serialize e) create_event
      ≡ some (record e { death_time = time_none; trigger_count = 0 })
unfolding serialize serialize_base get_length
event_round_trip n e h fits =
    round_trip codec n (record e { death_time = time_none; trigger_count = 0 }) (h, refl, refl) fits
