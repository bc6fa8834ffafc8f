-- ===== src/Packet/Memory.antt =====
-- The buffer under `put_bytes` and `advance`: its invariant, and what is left to read.
use distributed_games.Base.{
  ℕ, ◌+◌, ◌≤◌, ◌≡◌, refl, sym, ◌∙◌, ap, List, ◌++◌, append_assoc, arith, length, take, drop,
  length-append, length-take, length-drop, length-replicate, take-append_length, drop-append_length,
  drop-drop, [], take-append-drop,
}
use native.Mathlib.Nat.{add-zero}
use distributed_games.Packet.{Packet, put_bytes, unread, advance, new_packet}

pub record IsValid (p : Packet) : Type 0 where
  pub allocated : length p.buffer ≡ p.size
  pub in_buffer : p.buf_position ≤ p.size

pub new_packet-IsValid : (n : ℕ) → IsValid (new_packet n)
unfolding new_packet
new_packet-IsValid n = record { allocated = length-replicate n 0; in_buffer = omega arith }

pub put_bytes-IsValid :
    {p : Packet} (bs : List ℕ)
    → IsValid p
    → p.buf_position + length bs ≤ p.size
    → IsValid (put_bytes bs p)
unfolding put_bytes
put_bytes-IsValid {p} bs v h = record {
  allocated = omega (
    arith,
    length-append (take p.buf_position p.buffer) (bs ++ drop (p.buf_position + length bs) p.buffer),
    length-append bs (drop (p.buf_position + length bs) p.buffer),
    length-take p.buf_position p.buffer,
    length-drop (p.buf_position + length bs) p.buffer,
    v.allocated,
    v.in_buffer,
  );
  in_buffer = h;
}

pub advance-IsValid :
    {p : Packet} (n : ℕ) → IsValid p → p.buf_position + n ≤ p.size → IsValid (advance n p)
unfolding advance
advance-IsValid n v h = record { allocated = v.allocated; in_buffer = h }

pub length-unread : {p : Packet} → IsValid p → length (unread p) + p.buf_position ≡ p.size
length-unread {p} v = omega (arith, length-drop p.buf_position p.buffer, v.allocated, v.in_buffer)

pub unread-advance : (p : Packet) (n : ℕ) → unread (advance n p) ≡ drop n (unread p)
unfolding advance
unread-advance p n = sym (drop-drop p.buf_position n p.buffer)

-- A list that splits at `n` in two ways.
take_prefix : (n : ℕ) (xs ys : List ℕ) → length xs ≡ n → take n (xs ++ ys) ≡ xs
take_prefix n xs ys e = rw (← e) (take-append_length xs ys)

drop_prefix : (n : ℕ) (xs ys : List ℕ) → length xs ≡ n → drop n (xs ++ ys) ≡ ys
drop_prefix n xs ys e = rw (← e) (drop-append_length xs ys)

module _ {p : Packet} (v : IsValid p) (bs : List ℕ) where
  length_front : length (take p.buf_position p.buffer) ≡ p.buf_position
  length_front = omega (arith, length-take p.buf_position p.buffer, v.allocated, v.in_buffer)

  -- From the old position on, the buffer holds what was written and what stood behind it.
  pub unread-put_bytes :
      drop p.buf_position (put_bytes bs p).buffer ≡ bs ++ drop (p.buf_position + length bs) p.buffer
  unfolding put_bytes
  unread-put_bytes = drop_prefix p.buf_position _ _ length_front

  -- The second of two writes in turn finds the first in front of it.
  take_second :
      take (p.buf_position + length bs) (put_bytes bs p).buffer ≡ take p.buf_position p.buffer ++ bs
  unfolding put_bytes
  take_second =
      ap (take (p.buf_position + length bs))
        (sym (append_assoc (take p.buf_position p.buffer) bs _))
      ∙ take_prefix (p.buf_position + length bs) (take p.buf_position p.buffer ++ bs) _
          (omega (arith, length-append (take p.buf_position p.buffer) bs, length_front))

  drop_second :
      (n : ℕ)
      → drop (p.buf_position + length bs + n) (put_bytes bs p).buffer
        ≡ drop (p.buf_position + length bs + n) p.buffer
  unfolding put_bytes
  drop_second n =
      sym (drop-drop (p.buf_position + length bs) n _)
      ∙ ap (drop n) (
          sym (drop-drop p.buf_position (length bs) _)
          ∙ ap (drop (length bs)) unread-put_bytes
          ∙ drop-append_length bs _)
      ∙ drop-drop (p.buf_position + length bs) n p.buffer

  -- Two writes in turn are one write of both.
  pub put_bytes-put_bytes : (cs : List ℕ) → put_bytes cs (put_bytes bs p) ≡ put_bytes (bs ++ cs) p
  unfolding put_bytes
  put_bytes-put_bytes cs = ground (
    arith,
    take_second,
    drop_second (length cs),
    length-append bs cs,
    append_assoc (take p.buf_position p.buffer) bs
        (cs ++ drop (p.buf_position + length bs + length cs) p.buffer),
    append_assoc bs cs (drop (p.buf_position + length bs + length cs) p.buffer),
    ap (λ (k : ℕ). drop k p.buffer)
        (let e : p.buf_position + length bs + length cs ≡ p.buf_position + length (bs ++ cs) =
            omega (arith, length-append bs cs) in
          e),
  )

pub position-put_bytes :
    (bs : List ℕ) (p : Packet)
    → ((put_bytes bs p).buf_position ≡ p.buf_position + length bs)
      × ((put_bytes bs p).size ≡ p.size)
      × (p.buf_position + length bs ≤ (put_bytes bs p).used)
unfolding put_bytes
position-put_bytes bs p = (refl, refl, omega arith)

pub put_bytes-nil : {p : Packet} → IsValid p → p.buf_position ≤ p.used → put_bytes [] p ≡ p
unfolding put_bytes
put_bytes-nil {p} v u = ground (
  arith,
  take-append-drop p.buf_position p.buffer,
  ap (λ (k : ℕ). drop k p.buffer) (add-zero p.buf_position),
)
