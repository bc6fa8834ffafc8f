-- ===== src/Int32.antt =====
-- A C `int` that travels as a `uint32` (`WriteInt`, `ReadInt`): two's complement of 32 bits.
use distributed_games.Base.{
  ℕ, suc, ◌-◌, ◌%◌, ◌<◌, ◌≤◌, ◌≡◌, arith, ltb, if◌then◌else◌, ℤ, pos, negsuc, pos_part, neg_part,
}

unfoldable pub to_uint32 : ℤ → ℕ
to_uint32 (pos n) = n % 4294967296
to_uint32 (negsuc n) = (4294967296 - suc n % 4294967296) % 4294967296

pub of_uint32 : ℕ → ℤ
of_uint32 n = if ltb n 2147483648 then pos n else negsuc (4294967296 - n - 1)

-- The values of an `int`.
abbrev pub IsInt32 : ℤ → Type 0
IsInt32 v = (pos_part v < 2147483648) × (neg_part v ≤ 2147483648)

pub to_uint32_lt : (v : ℤ) → to_uint32 v < 4294967296
unfolding to_uint32
to_uint32_lt (pos n) = omega arith
to_uint32_lt (negsuc n) = omega arith

pub of_uint32-to_uint32 : (v : ℤ) → IsInt32 v → of_uint32 (to_uint32 v) ≡ v
unfolding to_uint32 of_uint32
of_uint32-to_uint32 (pos n) h = ground arith
of_uint32-to_uint32 (negsuc n) h = ground arith
