-- ===== src/Packet.antt =====
-- mercury/Packet.h and mercury/Packet.cpp: the wire form of a message, a byte buffer of fixed size
-- with one position that serves reading and writing. A method is a state transformer; `none` is a
-- failed ASSERT or a read of a negative length. The machine is little-endian (`htonl` swaps).
pub mod Memory
pub mod Writes
pub mod Reads
pub mod Transmit
pub mod Codec
use distributed_games.Base.{
  ℕ, zero, suc, ◌+◌, ◌*◌, ◌/◌, ◌%◌, max, Bool, true, false, Option, none, some, List, [], ◌∷◌, ◌++◌,
  ltb, ◌==◌, if◌then◌else◌, length, take, drop, replicate,
}

pub record Packet : Type 0 where
  pub buffer : List ℕ
  pub buf_position : ℕ
  pub size : ℕ
  pub used : ℕ

abbrev pub M : Type 0 → Type 0
M A = Packet → Option (A × Packet)

unfoldable pub pure : {A : Type 0} → A → M A
pure a p = some (a, p)

-- A failed ASSERT, or a fault.
unfoldable pub fault : {A : Type 0} → M A
fault p = none

infixl 5 ◌>>=◌ ◌>>◌
unfoldable pub ◌>>=◌ : {A B : Type 0} → M A → (A → M B) → M B
◌>>=◌ m f p = elim (m p) [ none ↦ none | some (a, q) ↦ f a q ]

unfoldable pub ◌>>◌ : {B : Type 0} → M (Unit {0}) → M B → M B
unfolding ◌>>=◌
m >> k = m >>= λ _. k

-- The bytes of a new buffer are arbitrary; here they are 0.
unfoldable pub new_packet : ℕ → Packet
new_packet n = record { buffer = replicate n 0; buf_position = 0; size = n; used = 0 }

unfoldable pub reset_buf_position : Packet → Packet
reset_buf_position p = record p { buf_position = 0 }

-- `memcpy (m_Buffer + m_BufPosition, bs, len)` and the two updates after it.
pub put_bytes : List ℕ → Packet → Packet
put_bytes bs p = record p {
  buffer = take p.buf_position p.buffer ++ (bs ++ drop (p.buf_position + length bs) p.buffer);
  buf_position = p.buf_position + length bs;
  used = max p.used (p.buf_position + length bs);
}

-- The bytes from the position on.
abbrev pub unread : Packet → List ℕ
unread p = drop p.buf_position p.buffer

pub advance : ℕ → Packet → Packet
advance n p = record p { buf_position = p.buf_position + n }

-- `pos + len - 1 < size` on signed integers, with 1 added on both sides.
unfoldable pub write_buffer : List ℕ → M (Unit {0})
write_buffer bs p =
    if ltb (p.buf_position + length bs) (p.size + 1) then some (tt, put_bytes bs p) else none

-- A length of 2^31 or more is negative as an `int`: it passes the ASSERT, and the `memcpy` faults.
unfoldable pub read_buffer : ℕ → M (List ℕ)
read_buffer len p =
    if ltb (p.buf_position + len) (p.size + 1)
    then some (take len (unread p), advance len p)
    else none

unfoldable pub write_byte : ℕ → M (Unit {0})
write_byte b p = if ltb p.buf_position p.size then some (tt, put_bytes (b ∷ []) p) else none

pub first_byte : List ℕ → ℕ
first_byte [] = 0
first_byte (b ∷ bs) = b

unfoldable pub read_byte : M ℕ
read_byte p = if ltb p.buf_position p.size then some (first_byte (unread p), advance 1 p) else none

unfoldable pub peek_byte : M ℕ
peek_byte p = if ltb p.buf_position p.size then some (first_byte (unread p), p) else none

unfoldable pub bool_byte : Bool → ℕ
bool_byte b = if b then 1 else 0

unfoldable pub write_bool : Bool → M (Unit {0})
unfolding bool_byte
write_bool b = write_byte (bool_byte b)

unfoldable pub read_bool : M Bool
unfolding pure
read_bool = do b ← read_byte; if b == 0 then pure false else pure true

-- `htons` and the `memcpy` of its result: the high byte first.
unfoldable pub short_bytes : ℕ → List ℕ
short_bytes s = (s / 256 % 256) ∷ (s % 256) ∷ []

pub of_short_bytes : List ℕ → ℕ
of_short_bytes (a ∷ b ∷ bs) = a * 256 + b
of_short_bytes _ = 0

unfoldable pub write_short : ℕ → M (Unit {0})
write_short s p =
    if ltb (p.buf_position + 1) p.size then some (tt, put_bytes (short_bytes s) p) else none

unfoldable pub read_short : M ℕ
read_short p =
    if ltb (p.buf_position + 1) p.size
    then some (of_short_bytes (take 2 (unread p)), advance 2 p)
    else none

unfoldable pub int_bytes : ℕ → List ℕ
int_bytes i = (i / 16777216 % 256) ∷ (i / 65536 % 256) ∷ (i / 256 % 256) ∷ (i % 256) ∷ []

pub of_int_bytes : List ℕ → ℕ
of_int_bytes (a ∷ b ∷ c ∷ d ∷ bs) = a * 16777216 + b * 65536 + c * 256 + d
of_int_bytes _ = 0

unfoldable pub write_int : ℕ → M (Unit {0})
write_int i p =
    if ltb (p.buf_position + 3) p.size then some (tt, put_bytes (int_bytes i) p) else none

unfoldable pub read_int : M ℕ
read_int p =
    if ltb (p.buf_position + 3) p.size
    then some (of_int_bytes (take 4 (unread p)), advance 4 p)
    else none

-- The bytes as they stand in memory, the low one first.
unfoldable pub native_bytes : ℕ → List ℕ
native_bytes i = (i % 256) ∷ (i / 256 % 256) ∷ (i / 65536 % 256) ∷ (i / 16777216 % 256) ∷ []

pub of_native_bytes : List ℕ → ℕ
of_native_bytes (a ∷ b ∷ c ∷ d ∷ bs) = a + b * 256 + c * 65536 + d * 16777216
of_native_bytes _ = 0

unfoldable pub write_int_no_swap : ℕ → M (Unit {0})
write_int_no_swap i p =
    if ltb (p.buf_position + 3) p.size then some (tt, put_bytes (native_bytes i) p) else none

unfoldable pub read_int_no_swap : M ℕ
read_int_no_swap p =
    if ltb (p.buf_position + 3) p.size
    then some (of_native_bytes (take 4 (unread p)), advance 4 p)
    else none

-- A float is the 32-bit pattern that the union reads.
unfoldable pub write_float : ℕ → M (Unit {0})
write_float f p =
    if ltb (p.buf_position + 3) p.size then some (tt, put_bytes (int_bytes f) p) else none

unfoldable pub read_float : M ℕ
read_float p =
    if ltb (p.buf_position + 3) p.size
    then some (of_int_bytes (take 4 (unread p)), advance 4 p)
    else none

unfoldable pub write_string : List ℕ → M (Unit {0})
unfolding ◌>>◌
write_string s = do write_int (length s); write_buffer s

-- `ReadString` has an ASSERT of its own, the one of `ReadBuffer`.
unfoldable pub read_string : M (List ℕ)
unfolding ◌>>=◌
read_string = do n ← read_int; read_buffer n

-- The loops that write the elements of a container, and that read `n` of them.
unfoldable pub write_each : {A : Type 0} → (A → M (Unit {0})) → List A → M (Unit {0})
unfolding pure ◌>>◌
write_each serialize [] = pure tt
write_each serialize (x ∷ xs) = do serialize x; write_each serialize xs

unfoldable pub read_each : {A : Type 0} → M A → ℕ → M (List A)
unfolding pure ◌>>=◌
read_each construct zero = pure []
read_each construct (suc n) = do x ← construct; xs ← read_each construct n; pure (x ∷ xs)

-- A container as the messages send it: its size as a 32-bit word, then its elements.
unfoldable pub write_list : {A : Type 0} → (A → M (Unit {0})) → List A → M (Unit {0})
unfolding ◌>>◌
write_list serialize xs = do write_int (length xs); write_each serialize xs

-- The size read as a `uint32`.
unfoldable pub read_list : {A : Type 0} → M A → M (List A)
unfolding ◌>>=◌
read_list construct = do n ← read_int; read_each construct n

-- The size read as an `int`: from 2^31 on it is negative, and the loop does not run.
unfoldable pub read_list_int : {A : Type 0} → M A → M (List A)
unfolding ◌>>=◌
read_list_int construct = do n ← read_int; read_each construct (if ltb n 2147483648 then n else 0)

pub lengths : {A : Type 0} → (A → ℕ) → List A → ℕ
lengths get_length [] = 0
lengths get_length (x ∷ xs) = get_length x + lengths get_length xs
