-- ===== src/Value/Wire.antt =====
-- `Serialize`, the constructor from a packet and `GetLength` agree.
use distributed_games.Base.{
  ℕ, zero, suc, ◌+◌, ◌-◌, ◌≤◌, ◌<◌, ◌≡◌, refl, List, ◌++◌, arith, length-append, pos, negsuc, ltb,
  Bool-cases, inl, inr, ◌⊎◌, some, none,
}
use distributed_games.Packet.{int_bytes}
use distributed_games.Packet.Writes.{
  Writes, Writes-then, Writes-int, Writes-buffer, length-int_bytes,
}
use distributed_games.Packet.Codec.{IsCodec, round_trip, no_room}
use distributed_games.Packet.Transmit.{arrives}
use distributed_games.Packet.Reads.{
  Reads, Reads-bind, Reads-int, Reads-eq, Reads-buffer_sized, Reads-map,
}
use distributed_games.Value.{
  Value, low_bytes, set_bytes, magnitude, get_length, mpz_get_raw, mpz_set_raw, serialize,
  construct, construct_sized, max_mpz_size,
}
use distributed_games.Value.Size.{get_length_room, get_length_zero}
use distributed_games.Value.Bytes.{mpz_set_raw-mpz_get_raw, length-mpz_get_raw}

-- The value fits the static buffer of both ends.
abbrev pub IsWire : Value → Type 0
IsWire v = get_length v ≤ 4 + max_mpz_size

pub bytes : Value → List ℕ
bytes v = int_bytes (get_length v - 4) ++ mpz_get_raw (get_length v - 4) v

pub Writes-value : (v : Value) → IsWire v → Writes (serialize v) (bytes v)
unfolding serialize bytes
Writes-value v h = elim (Bool-cases (ltb max_mpz_size (get_length v - 4))) [
  | inl big ↦ absurd (ground arith)
  | inr fits ↦ rw fits (Writes-then (Writes-int _) (Writes-buffer _))
]

zero_cases : (v : Value) → (v ≡ pos 0) ⊎ (0 < magnitude v)
zero_cases (pos zero) = inl refl
zero_cases (pos (suc n)) = inr (omega arith)
zero_cases (negsuc n) = inr (omega arith)

-- The raw bytes of the length that `GetLength` gives stand for the value.
set_raw_sized : (v : Value) → mpz_set_raw (mpz_get_raw (get_length v - 4) v) ≡ v
unfolding low_bytes set_bytes
set_raw_sized v = elim (zero_cases v) [
  | inl e ↦ rw (e, get_length_zero) (unfold mpz_get_raw mpz_set_raw in refl)
  | inr p ↦
      let (s, e, room) = get_length_room v p in
      let size : get_length v - 4 ≡ suc s = omega (arith, e) in
      rw size (mpz_set_raw-mpz_get_raw s v room)
]

Reads-sized :
    (v : Value)
    → IsWire v
    → Reads (construct_sized (get_length v - 4)) (mpz_get_raw (get_length v - 4) v) v
unfolding construct_sized
Reads-sized v h = elim (Bool-cases (ltb max_mpz_size (get_length v - 4))) [
  | inl big ↦ absurd (ground arith)
  | inr fits ↦ rw fits (
      Reads-eq (set_raw_sized v) (
        Reads-map mpz_set_raw
          (Reads-buffer_sized (get_length v - 4) _ (length-mpz_get_raw (get_length v - 4) v))))
]

get_length_ge : (v : Value) → 4 ≤ get_length v
get_length_ge v = unfold get_length in ground arith

-- `Serialize`, the constructor and `GetLength` fit together.
pub codec : IsCodec serialize construct get_length IsWire
codec = record {
  bytes = bytes;
  writes = Writes-value;
  reads = λ v h.
      unfold construct bytes in
      Reads-bind construct_sized (Reads-int (get_length v - 4) (omega arith)) (Reads-sized v h);
  sized = λ v h.
      unfold bytes in
      omega (
        arith,
        length-append (int_bytes (get_length v - 4)) (mpz_get_raw (get_length v - 4) v),
        length-int_bytes (get_length v - 4),
        length-mpz_get_raw (get_length v - 4) v,
        get_length_ge v,
      );
}

-- A value of a size that the static buffers hold, negative ones included, arrives as it was in a
-- packet with the room that it asks for.
pub value_round_trip :
    (n : ℕ) (v : Value) → IsWire v → get_length v ≤ n → arrives n (serialize v) construct ≡ some v
value_round_trip n v h fits = round_trip codec n v h fits

-- A packet that is one byte or more too small for a value stops its serialiser, so nothing arrives.
pub value_no_room :
    (n : ℕ) (v : Value) → IsWire v → n < get_length v → arrives n (serialize v) construct ≡ none
value_no_room n v h short = no_room codec n v h short
