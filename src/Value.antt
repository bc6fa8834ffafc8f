-- ===== src/Value.antt =====
-- mercury/MercuryID.h and mercury/MercuryID.cpp: the values of an attribute, integers of any size,
-- their wire form, and the tests on the ring of values. GMP is not part of the repository: an
-- `mpz_t` is the integer that it stands for, and its limbs are the digits of its magnitude.
pub mod Size
pub mod Bytes
pub mod Wire
pub mod Tests
pub mod Ring
use distributed_games.Base.{
  ℕ, zero, suc, ◌+◌, ◌-◌, ◌*◌, ◌/◌, ◌%◌, ◌^◌, Bool, true, false, ◌&&◌, ◌||◌, List, [], ◌∷◌, ◌++◌,
  reverse, ltb, leb, ◌==◌, if◌then◌else◌, length, replicate, ℤ, pos, negsuc, pos_part, neg_part,
  ltb_ℤ, leb_ℤ, eqb_ℤ, sub_ℕ,
}
use distributed_games.Packet.{
  M, pure, fault, ◌>>=◌, ◌>>◌, write_int, read_int, write_buffer, read_buffer,
}

abbrev pub Value : Type 0
Value = ℤ

-- `bytemsb`: the highest bit set in a byte, counted from 1.
byte_msb_table : List ℕ
byte_msb_table =
    0
    ∷ 1
    ∷ (replicate 2 2
        ++ (replicate 4 3
            ++ (replicate 8 4
                ++ (replicate 16 5 ++ (replicate 32 6 ++ (replicate 64 7 ++ replicate 128 8))))))

entry : List ℕ → ℕ → ℕ
entry [] i = 0
entry (x ∷ xs) zero = x
entry (x ∷ xs) (suc i) = entry xs i

pub byte_msb : ℕ → ℕ
unfolding byte_msb_table entry
byte_msb v = entry byte_msb_table v

-- The masks test whether anything is left of the shifted word.
pub fls32 : ℕ → ℕ
fls32 v =
    if v / 65536 == 0
    then if v / 256 == 0 then byte_msb v else 8 + byte_msb (v / 256)
    else if v / 16777216 == 0
    then 16 + byte_msb (v / 65536)
    else 24 + byte_msb (v / 16777216)

-- Limbs have 32 bits. The loop goes down to the highest limb that is not 0; the recursion goes up
-- to it. Each round takes a limb off, so the number itself is fuel enough.
pub size_in_base2_loop : ℕ → ℕ → ℕ
size_in_base2_loop zero m = 0
size_in_base2_loop (suc fuel) m =
    let higher = 32 + size_in_base2_loop fuel (m / 4294967296) in
    if m / 4294967296 == 0 then fls32 m else higher

abbrev pub magnitude : Value → ℕ
magnitude v = pos_part v + neg_part v

pub mpz_sizeinbase2 : Value → ℕ
mpz_sizeinbase2 v = size_in_base2_loop (suc (magnitude v)) (magnitude v)

-- `GetLength`: the length itself, and room for the bits and a sign.
pub get_length : Value → ℕ
get_length v = let nbits = mpz_sizeinbase2 v in if nbits == 0 then 4 else 4 + (nbits / 8 + 1)

-- a modulo 2 ^ b, from 0 on for a negative a too
pub mpz_umod_2exp : Value → ℕ → ℕ
mpz_umod_2exp (pos n) b = n % 2 ^ b
mpz_umod_2exp (negsuc n) b = (2 ^ b - suc n % 2 ^ b) % 2 ^ b

-- The bytes of a magnitude from the low one on, as the loops take them off the limbs.
pub low_bytes : ℕ → ℕ → List ℕ
low_bytes zero m = []
low_bytes (suc size) m = (m % 256) ∷ low_bytes size (m / 256)

pub mpz_get_rawmag_be : ℕ → ℕ → List ℕ
mpz_get_rawmag_be size m = reverse (low_bytes size m)

pub mpz_get_raw : ℕ → Value → List ℕ
unfolding mpz_get_rawmag_be
mpz_get_raw size v =
    if ltb_ℤ v (pos 0)
    then mpz_get_rawmag_be size (mpz_umod_2exp v (size * 8))
    else mpz_get_rawmag_be size (magnitude v)

-- `v = v << 8 | byte`, from the first byte on
pub set_bytes : ℕ → List ℕ → ℕ
set_bytes v [] = v
set_bytes v (b ∷ bs) = set_bytes (v * 256 + b) bs

pub mpz_set_rawmag_be : List ℕ → ℕ
mpz_set_rawmag_be bs = set_bytes 0 bs

-- `*buf & 0x80`. With no byte the test reads what the static buffer held before, and the number is
-- 0 either way.
pub sign_bit : List ℕ → Bool
sign_bit [] = false
sign_bit (b ∷ bs) = (b / 128 % 2) == 1

-- The sign is turned before and after the reduction.
pub mpz_set_raw : List ℕ → Value
unfolding sign_bit mpz_set_rawmag_be
mpz_set_raw bs =
    if sign_bit bs
    then sub_ℕ 0 (mpz_umod_2exp (sub_ℕ 0 (mpz_set_rawmag_be bs)) (8 * length bs))
    else pos (mpz_set_rawmag_be bs)

abbrev pub max_mpz_size : ℕ
max_mpz_size = 10240

-- Past `MAX_MPZ_SIZE` the bytes run over the static buffer.
pub serialize : Value → M (Unit {0})
unfolding ◌>>◌ fault
serialize v =
    let size = get_length v - 4 in
    if ltb max_mpz_size size then fault else (do write_int size; write_buffer (mpz_get_raw size v))

construct_sized : ℕ → M Value
unfolding ◌>>=◌ pure fault
construct_sized size =
    if ltb max_mpz_size size then fault else (do bs ← read_buffer size; pure (mpz_set_raw bs))

pub construct : M Value
unfolding ◌>>=◌ construct_sized
construct = do size ← read_int; construct_sized size

-- Whether `test` lies between `left` and `right` on the ring, with both ends, one or none.
pub is_between_inclusive : Value → Value → Value → Bool
is_between_inclusive test left right =
    if eqb_ℤ left right
    then true
    else if ltb_ℤ left right
    then leb_ℤ left test && leb_ℤ test right
    else leb_ℤ left test || leb_ℤ test right

pub is_between_left_inclusive : Value → Value → Value → Bool
is_between_left_inclusive test left right =
    if eqb_ℤ left right
    then true
    else if ltb_ℤ left right
    then leb_ℤ left test && ltb_ℤ test right
    else leb_ℤ left test || ltb_ℤ test right

pub is_between_right_inclusive : Value → Value → Value → Bool
is_between_right_inclusive test left right =
    if eqb_ℤ left right
    then true
    else if ltb_ℤ left right
    then ltb_ℤ left test && leb_ℤ test right
    else ltb_ℤ left test || leb_ℤ test right

pub is_between : Value → Value → Value → Bool
is_between test left right =
    if eqb_ℤ left right
    then true
    else if ltb_ℤ left right
    then ltb_ℤ left test && ltb_ℤ test right
    else ltb_ℤ left test || ltb_ℤ test right
