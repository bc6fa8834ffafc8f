-- ===== src/Value/Bytes.antt =====
-- The raw form of a number: big-endian, in two's complement.
use mathlib.Core.List.{reverse-cons}
use native.Mathlib.Nat.{pow-suc, mod-eq_of_lt}
use native.Mathlib.Numerals.{towards_suc}
use distributed_games.Base.{
  ℕ, zero, suc, ◌+◌, ◌-◌, ◌*◌, ◌/◌, ◌%◌, ◌^◌, ◌≤◌, ◌<◌, ◌≡◌, refl, ap, ◌∙◌, true, false, List, [],
  ◌∷◌, ◌++◌, arith, length, length-reverse, lt→ltb, pos, negsuc,
}
use distributed_games.Value.{
  Value, low_bytes, mpz_get_rawmag_be, set_bytes, mpz_set_rawmag_be, mpz_umod_2exp, sign_bit,
  mpz_get_raw, mpz_set_raw, magnitude,
}

pub length-low_bytes : (n m : ℕ) → length (low_bytes n m) ≡ n
unfolding low_bytes
length-low_bytes zero m = refl
length-low_bytes (suc n) m = ap suc (length-low_bytes n (m / 256))

pub length-get_rawmag : (n m : ℕ) → length (mpz_get_rawmag_be n m) ≡ n
unfolding mpz_get_rawmag_be
length-get_rawmag n m = length-reverse (low_bytes n m) ∙ length-low_bytes n m

set_bytes-snoc : (v b : ℕ) (xs : List ℕ) → set_bytes v (xs ++ (b ∷ [])) ≡ set_bytes v xs * 256 + b
unfolding set_bytes
set_bytes-snoc v b [] = refl
set_bytes-snoc v b (x ∷ xs) = set_bytes-snoc (v * 256 + x) b xs

get_rawmag-suc :
    (n m : ℕ) → mpz_get_rawmag_be (suc n) m ≡ mpz_get_rawmag_be n (m / 256) ++ (m % 256 ∷ [])
unfolding mpz_get_rawmag_be low_bytes
get_rawmag-suc n m = reverse-cons (m % 256) (low_bytes n (m / 256))

-- A magnitude that fits comes back from its bytes.
set_rawmag-get_rawmag : (n m : ℕ) → m < 256 ^ n → mpz_set_rawmag_be (mpz_get_rawmag_be n m) ≡ m
unfolding mpz_set_rawmag_be
set_rawmag-get_rawmag zero m h = unfold mpz_get_rawmag_be low_bytes set_bytes in omega arith
set_rawmag-get_rawmag (suc n) m h =
    rw (get_rawmag-suc n m, set_bytes-snoc 0 (m % 256) (mpz_get_rawmag_be n (m / 256)))
      (omega (arith, set_rawmag-get_rawmag n (m / 256) (omega (arith, pow-suc 256 n))))

sign_bit-append : (xs ys : List ℕ) → 0 < length xs → sign_bit (xs ++ ys) ≡ sign_bit xs
unfolding sign_bit
sign_bit-append [] ys h = absurd (omega arith)
sign_bit-append (x ∷ xs) ys h = refl

sign_bit_step :
    (n m : ℕ)
    → sign_bit (mpz_get_rawmag_be (suc (suc n)) m) ≡ sign_bit (mpz_get_rawmag_be (suc n) (m / 256))
sign_bit_step n m =
    rw (get_rawmag-suc (suc n) m)
      (sign_bit-append _ _ (omega (arith, length-get_rawmag (suc n) (m / 256))))

sign_bit_low : (n m : ℕ) → m < 128 * 256 ^ n → sign_bit (mpz_get_rawmag_be (suc n) m) ≡ false
sign_bit_low zero m h = unfold sign_bit mpz_get_rawmag_be low_bytes in ground arith
sign_bit_low (suc n) m h =
    sign_bit_step n m ∙ sign_bit_low n (m / 256) (omega (arith, pow-suc 256 n))

sign_bit_high :
    (n m : ℕ)
    → 128 * 256 ^ n ≤ m
    → m < 256 * 256 ^ n
    → sign_bit (mpz_get_rawmag_be (suc n) m) ≡ true
sign_bit_high zero m l h = unfold sign_bit mpz_get_rawmag_be low_bytes in ground arith
sign_bit_high (suc n) m l h =
    sign_bit_step n m
    ∙ sign_bit_high n (m / 256) (omega (arith, pow-suc 256 n)) (omega (arith, pow-suc 256 n))

two_pow : (n : ℕ) → 2 ^ (n * 8) ≡ 256 ^ n
two_pow zero = refl
two_pow (suc n) =
    let e : suc n * 8 ≡ n * 8 + 8 = omega arith in
    rw e (eight (n * 8) ∙ omega (arith, two_pow n, pow-suc 256 n))
  where
    eight : (k : ℕ) → 2 ^ (k + 8) ≡ 256 * 2 ^ k
    eight k = simp towards_suc (omega arith)

umod_neg : (n k P : ℕ) → 2 ^ n ≡ P → suc k < P → mpz_umod_2exp (negsuc k) n ≡ P - suc k
unfolding mpz_umod_2exp
umod_neg n k P e h = rw (e, mod-eq_of_lt {n = suc k} {m = P} h) (mod-eq_of_lt (omega arith))

get_raw_neg :
    (s k : ℕ)
    → suc k < 128 * 256 ^ s
    → mpz_get_raw (suc s) (negsuc k) ≡ mpz_get_rawmag_be (suc s) (256 * 256 ^ s - suc k)
unfolding mpz_get_raw
get_raw_neg s k h = rw (lt→ltb 0 (0 + suc k) (omega arith)) (
    ap (mpz_get_rawmag_be (suc s)) (
      umod_neg (suc s * 8) k (256 * 256 ^ s) (two_pow (suc s) ∙ omega (arith, pow-suc 256 s))
        (omega arith)))

set_raw_neg :
    (s k : ℕ)
    → suc k < 128 * 256 ^ s
    → mpz_set_raw (mpz_get_rawmag_be (suc s) (256 * 256 ^ s - suc k)) ≡ negsuc k
unfolding mpz_set_raw
set_raw_neg s k h = ground (
  arith,
  sign_bit_high s (256 * 256 ^ s - suc k),
  set_rawmag-get_rawmag (suc s) (256 * 256 ^ s - suc k),
  length-get_rawmag (suc s) (256 * 256 ^ s - suc k),
  pow-suc 256 s,
  two_pow (suc s),
  umod_neg (8 * suc s) (256 * 256 ^ s - suc k - 1) (256 * 256 ^ s),
)

-- Bytes with room for the sign bring the number back, of either sign.
pub mpz_set_raw-mpz_get_raw :
    (s : ℕ) (v : Value) → magnitude v < 128 * 256 ^ s → mpz_set_raw (mpz_get_raw (suc s) v) ≡ v
mpz_set_raw-mpz_get_raw s (pos m) h =
    unfold mpz_get_raw mpz_set_raw in
    ground (arith, sign_bit_low s m, set_rawmag-get_rawmag (suc s) m, pow-suc 256 s)
mpz_set_raw-mpz_get_raw s (negsuc k) h =
    rw (get_raw_neg s k (omega arith)) (set_raw_neg s k (omega arith))

pub length-mpz_get_raw : (n : ℕ) (v : Value) → length (mpz_get_raw n v) ≡ n
unfolding mpz_get_raw
length-mpz_get_raw n v =
    ground (arith, length-get_rawmag n (mpz_umod_2exp v (n * 8)), length-get_rawmag n (magnitude v))
