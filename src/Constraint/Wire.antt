-- ===== src/Constraint/Wire.antt =====
-- Constraints on the wire, and lists of them.
use distributed_games.Base.{
  ℕ, ◌≡◌, ◌↔◌, true, List, ◌++◌, arith, length-append, ap, eq_of_parts, ◌≤◌, some,
}
use distributed_games.Packet.{int_bytes}
use distributed_games.Packet.Codec.{IsCodec, round_trip}
use distributed_games.Packet.Transmit.{arrives}
use distributed_games.Packet.Writes.{Writes-then, Writes-int, length-int_bytes}
use distributed_games.Packet.Reads.{Reads-bind, Reads-map, Reads-int, Reads-eq}
use distributed_games.Int32.{IsInt32, to_uint32, to_uint32_lt, of_uint32-to_uint32}
use distributed_games.Value.Wire as ValueWire
use distributed_games.Constraint.{Constraint, equals, serialize, construct, get_length}

abbrev pub IsWire : Constraint → Type 0
IsWire c = IsInt32 c.attr_index × ValueWire.IsWire c.min × ValueWire.IsWire c.max

pub bytes : Constraint → List ℕ
bytes c =
    int_bytes (to_uint32 c.attr_index)
    ++ (ValueWire.codec.bytes c.min ++ ValueWire.codec.bytes c.max)

pub codec : IsCodec serialize construct get_length IsWire
unfolding serialize construct get_length bytes
codec = record {
  bytes = bytes;
  writes = λ c h.
      Writes-then (Writes-int (to_uint32 c.attr_index))
        (Writes-then (ValueWire.codec.writes c.min h.1) (ValueWire.codec.writes c.max h.2));
  reads = λ c h.
      Reads-eq (ap (λ a. record c { attr_index = a }) (of_uint32-to_uint32 c.attr_index h.0)) (
        Reads-bind _ (Reads-int (to_uint32 c.attr_index) (to_uint32_lt c.attr_index)) (
          Reads-bind _ (ValueWire.codec.reads c.min h.1)
            (Reads-map _ (ValueWire.codec.reads c.max h.2))));
  sized = λ c h. omega (
    arith,
    length-append (int_bytes (to_uint32 c.attr_index))
        (ValueWire.codec.bytes c.min ++ ValueWire.codec.bytes c.max),
    length-append (ValueWire.codec.bytes c.min) (ValueWire.codec.bytes c.max),
    length-int_bytes (to_uint32 c.attr_index),
    ValueWire.codec.sized c.min h.1,
    ValueWire.codec.sized c.max h.2,
  );
}

-- `operator==` decides equality.
pub equals_iff : (a b : Constraint) → (equals a b ≡ true) ↔ (a ≡ b)
unfolding equals
equals_iff a b = (
  λ h. ground (
    arith,
    eq_of_parts a.attr_index b.attr_index,
    eq_of_parts a.min b.min,
    eq_of_parts a.max b.max,
  ),
  λ e. ground arith,
)

-- A constraint arrives as it was in a packet with the room that it asks for.
pub constraint_round_trip :
    (n : ℕ) (c : Constraint)
    → IsWire c
    → get_length c ≤ n
    → arrives n (serialize c) construct ≡ some c
constraint_round_trip n c h fits = round_trip codec n c h fits
