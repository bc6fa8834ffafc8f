-- ===== src/Packet/Transmit.antt =====
-- A message on its way: it is serialised into a packet of `n` bytes, and constructed at the other
-- end from the first byte on.
use distributed_games.Base.{
  ℕ, ◌≤◌, ◌<◌, ◌≡◌, ap, ◌∙◌, Option, none, some, List, ◌++◌, arith, length, drop,
}
use distributed_games.Packet.{
  Packet, M, new_packet, reset_buf_position, put_bytes, write_buffer, unread,
}
use distributed_games.Packet.Memory.{
  IsValid, new_packet-IsValid, put_bytes-IsValid, unread-put_bytes,
}
use distributed_games.Packet.Writes.{Writes}
use distributed_games.Packet.Reads.{Reads}

module _ {A : Type 0} (n : ℕ) (serialize : M (Unit {0})) (construct : M A) where
  received : Option (Unit {0} × Packet) → Option (A × Packet)
  received none = none
  received (some (_, p)) = construct (reset_buf_position p)

  pub transmit : Option (A × Packet)
  unfolding received
  transmit = received (serialize (new_packet n))

  -- the value that arrives
  pub arrives : Option A
  arrives = elim transmit [ none ↦ none | some (a, p) ↦ some a ]

reset-IsValid : {p : Packet} → IsValid p → IsValid (reset_buf_position p)
unfolding reset_buf_position
reset-IsValid v = record { allocated = v.allocated; in_buffer = omega arith }

-- What was written at the front of a new packet is read back from its front.
unread-reset :
    (n : ℕ) (bs : List ℕ)
    → unread (reset_buf_position (put_bytes bs (new_packet n)))
      ≡ bs ++ drop (length bs) (new_packet n).buffer
unfolding reset_buf_position new_packet
unread-reset n bs =
    unread-put_bytes (new_packet-IsValid n) bs
    ∙ ap (λ (k : ℕ). bs ++ drop k (new_packet n).buffer) (omega arith)

-- A constructor gets back what the serialiser wrote, when the packet has the room.
pub arrives_lem :
    {A : Type 0} (n : ℕ) {w : M (Unit {0})} {r : M A} {bs : List ℕ} {a : A}
    → Writes w bs
    → Reads r bs a
    → length bs ≤ n
    → arrives n w r ≡ some a
unfolding arrives transmit new_packet write_buffer
arrives_lem n {bs} f g h = ground (
  arith,
  f.run (new_packet n) (new_packet-IsValid n),
  g.run (reset_buf_position (put_bytes bs (new_packet n))) (drop (length bs) (new_packet n).buffer)
      (reset-IsValid (put_bytes-IsValid bs (new_packet-IsValid n) (omega arith)))
      (unread-reset n bs),
)

-- A packet that is too small stops the serialiser.
pub arrives_short :
    {A : Type 0} (n : ℕ) {w : M (Unit {0})} (r : M A) {bs : List ℕ}
    → Writes w bs
    → n < length bs
    → arrives n w r ≡ none
unfolding arrives transmit new_packet write_buffer
arrives_short n r {bs} f h = ground (arith, f.run (new_packet n) (new_packet-IsValid n))
