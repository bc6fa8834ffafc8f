-- ===== src/Value/Tests.antt =====
-- Values that the tests send.
use distributed_games.Base.{◌<◌, pos, negsuc, arith}
use distributed_games.Value.{get_length, mpz_sizeinbase2, size_in_base2_loop, fls32, byte_msb}
use distributed_games.Value.Wire.{IsWire}

pub ten_IsWire : IsWire (pos 10)
unfolding get_length mpz_sizeinbase2 size_in_base2_loop fls32 byte_msb
ten_IsWire = omega arith

pub hundred_IsWire : IsWire (pos 100)
unfolding get_length mpz_sizeinbase2 size_in_base2_loop fls32 byte_msb
hundred_IsWire = omega arith

pub minus_IsWire : IsWire (negsuc 299)
unfolding get_length mpz_sizeinbase2 size_in_base2_loop fls32 byte_msb
minus_IsWire = omega arith

pub hundred_short : 4 < get_length (pos 100)
unfolding get_length mpz_sizeinbase2 size_in_base2_loop fls32 byte_msb
hundred_short = omega arith
