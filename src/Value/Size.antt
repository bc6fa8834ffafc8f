-- ===== src/Value/Size.antt =====
-- How many bytes `GetLength` allows for: enough for the magnitude and a sign bit.
use native.Mathlib.Numerals.{towards_suc}
use native.Mathlib.Decide.{dec_lt}
use distributed_games.Base.{
  ℕ, zero, suc, ◌+◌, ◌-◌, ap, ◌*◌, ◌/◌, Bool-cases, inl, inr, pos, ◌^◌, ◌≤◌, ◌<◌, ◌≡◌, refl, ==_iff,
  Bool, true, ◌&&◌, arith, leb, ltb, ◌==◌,
}
use distributed_games.Value.{
  byte_msb, fls32, size_in_base2_loop, magnitude, mpz_sizeinbase2, get_length, Value,
}

-- Running a test over the entries `start`, …, `start + count - 1` of a table.
scan : (ℕ → Bool) → ℕ → ℕ → Bool
scan test start zero = true
scan test start (suc count) = test start && scan test (suc start) count

entry_passes :
    (test : ℕ → Bool) (start count i : ℕ)
    → scan test start count ≡ true
    → start ≤ i
    → i < start + count
    → test i ≡ true
unfolding scan
entry_passes test start zero i e low high = absurd (omega arith)
entry_passes test start (suc count) i e low high = elim (Bool-cases (start == i)) [
  | inl same ↦ rw (← (==_iff start i).0 same) (ground arith)
  | inr other ↦ entry_passes test (suc start) count i (ground arith) (ground arith) (omega arith)
]

low_msb : (v : ℕ) → v < 128 → leb (byte_msb v) 7 ≡ true
unfolding byte_msb scan
low_msb v h = entry_passes (λ x. leb (byte_msb x) 7) 0 128 v refl (omega arith) h

msb_le : (v : ℕ) → v < 256 → leb (byte_msb v) 8 ≡ true
unfolding byte_msb scan
msb_le v h = entry_passes (λ x. leb (byte_msb x) 8) 0 256 v refl (omega arith) h

high_msb : (v : ℕ) → v < 128 → byte_msb (v + 128) ≡ 8
unfolding byte_msb scan
high_msb v h =
    (==_iff _ _).0 (entry_passes (λ x. byte_msb (x + 128) == 8) 0 128 v refl (omega arith) h)

nonzero_msb : (v : ℕ) → v < 255 → ltb 0 (byte_msb (v + 1)) ≡ true
unfolding byte_msb scan
nonzero_msb v h = entry_passes (λ x. ltb 0 (byte_msb (x + 1))) 0 255 v refl (omega arith) h

fls32_0 : (v : ℕ) → v < 128 → fls32 v / 8 ≡ 0
unfolding fls32
fls32_0 v h = ground (arith, low_msb v)

-- The top bit of a byte.
msb_8 : (v : ℕ) → 128 ≤ v → v < 256 → byte_msb v ≡ 8
msb_8 v l h = let e : v - 128 + 128 ≡ v = omega arith in rw e at (high_msb (v - 128) (omega arith))

fls32_1 : (v : ℕ) → 128 ≤ v → v < 32768 → fls32 v / 8 ≡ 1
unfolding fls32
fls32_1 v l h = ground (arith, msb_8 v, low_msb (v / 256))

fls32_2 : (v : ℕ) → 32768 ≤ v → v < 8388608 → fls32 v / 8 ≡ 2
unfolding fls32
fls32_2 v l h = ground (arith, msb_8 (v / 256), low_msb (v / 65536))

fls32_3 : (v : ℕ) → 8388608 ≤ v → v < 2147483648 → fls32 v / 8 ≡ 3
unfolding fls32
fls32_3 v l h = ground (arith, msb_8 (v / 65536), low_msb (v / 16777216))

fls32_4 : (v : ℕ) → 2147483648 ≤ v → v < 4294967296 → fls32 v / 8 ≡ 4
unfolding fls32
fls32_4 v l h = ground (arith, msb_8 (v / 16777216))

-- Most significant bit by most significant bit, the room that the bits of a limb ask for.
fls32_room : (v : ℕ) → v < 4294967296 → v < 128 * 256 ^ (fls32 v / 8)
fls32_room v h = elim (dec_lt v 128) [
  | yes a ↦ rw (fls32_0 v a) (omega arith)
  | no a ↦ elim (dec_lt v 32768) [
    | yes b ↦ rw (fls32_1 v (omega arith) b) (omega arith)
    | no b ↦ elim (dec_lt v 8388608) [
      | yes c ↦ rw (fls32_2 v (omega arith) c) (omega arith)
      | no c ↦ elim (dec_lt v 2147483648) [
        | yes d ↦ rw (fls32_3 v (omega arith) d) (omega arith)
        | no d ↦ rw (fls32_4 v (omega arith) h) (omega arith)
      ]
    ]
  ]
]

fls32_pos : (v : ℕ) → 0 < v → v < 4294967296 → 0 < fls32 v
unfolding fls32
fls32_pos v p h = ground (
  arith,
  nonzero_msb (v - 1),
  ap (λ (k : ℕ). byte_msb k) (let e : v - 1 + 1 ≡ v = omega arith in e),
)

pow_four : (s : ℕ) → 256 ^ (s + 4) ≡ 4294967296 * 256 ^ s
pow_four s = simp towards_suc (omega arith)

size_loop_room : (fuel m : ℕ) → m < fuel → m < 128 * 256 ^ (size_in_base2_loop fuel m / 8)
unfolding size_in_base2_loop
size_loop_room zero m h = absurd (omega arith)
size_loop_room (suc fuel) m h = elim (Bool-cases (m / 4294967296 == 0)) [
  | inl e ↦ rw e (fls32_room m (ground arith))
  | inr e ↦
      let ih = size_loop_room fuel (m / 4294967296) (ground arith) in
      let s : ℕ = size_in_base2_loop fuel (m / 4294967296) in
      let shift : (32 + s) / 8 ≡ s / 8 + 4 = omega arith in
      rw (e, shift, pow_four) (omega (arith, ih))
]

size_loop_pos : (fuel m : ℕ) → m < fuel → 0 < m → 0 < size_in_base2_loop fuel m
unfolding size_in_base2_loop
size_loop_pos zero m h p = absurd (omega arith)
size_loop_pos (suc fuel) m h p = ground (arith, fls32_pos m)

size_loop_zero : (fuel : ℕ) → size_in_base2_loop (suc fuel) 0 ≡ 0
unfolding size_in_base2_loop fls32 byte_msb
size_loop_zero fuel = refl

-- The bytes after the length: none for 0, and else enough to leave the sign bit free.
pub get_length_room :
    (v : Value) → 0 < magnitude v → (s : ℕ) × (get_length v ≡ s + 5) × (magnitude v < 128 * 256 ^ s)
unfolding get_length mpz_sizeinbase2
get_length_room v p = (
  size_in_base2_loop (suc (magnitude v)) (magnitude v) / 8,
  ground (arith, size_loop_pos (suc (magnitude v)) (magnitude v)),
  size_loop_room (suc (magnitude v)) (magnitude v) (omega arith),
)

pub get_length_zero : get_length (pos 0) ≡ 4
unfolding get_length mpz_sizeinbase2
get_length_zero = ground (arith, size_loop_zero 0)
