-- ===== src/TimeVal.antt =====
-- util/TimeVal.h and util/TimeVal.cpp: a point in time. The fields are those of the system's
-- `timeval`; the clock does not run before the epoch, and the sum is taken with a whole number of
-- milliseconds that is not negative, as the scheduler's delays are.
use distributed_games.Base.{
  ℕ, ◌+◌, ◌-◌, ◌*◌, ◌/◌, ◌%◌, ◌<◌, ◌≡◌, Bool, ◌&&◌, ◌||◌, ◌==◌, ltb, leb, if◌then◌else◌, ℤ, pos,
  sub_ℕ, ◌+ℤ◌, arith,
}

pub record TimeVal : Type 0 where
  pub sec : ℕ
  pub usec : ℕ

abbrev pub time_none : TimeVal
time_none = record { sec = 0; usec = 0 }

unfoldable pub before : TimeVal → TimeVal → Bool
before a b = ltb a.sec b.sec || a.sec == b.sec && ltb a.usec b.usec

-- `operator<=`
unfoldable pub at_most : TimeVal → TimeVal → Bool
unfolding before
at_most a b = before a b || a.sec == b.sec && a.usec == b.usec

pub before-at_most : (a b : TimeVal) → before a b ≡ Bool.true → at_most b a ≡ Bool.false
unfolding before at_most
before-at_most a b h = ground arith

-- The sum with a number of milliseconds. The branch for a negative fraction is not reached.
unfoldable pub add_msec : TimeVal → ℕ → TimeVal
add_msec a n =
    let s = a.sec + n / 1000 in
    let u = a.usec + n % 1000 * 1000 in
    if ltb 1000000 u
    then record { sec = s + 1; usec = u % 1000000 }
    else record { sec = s; usec = u }

-- The fraction is divided as C does it, towards zero.
unfoldable pub msec_of_usec : ℕ → ℕ → ℤ
msec_of_usec a b = if leb b a then pos ((a - b) / 1000) else sub_ℕ 0 ((b - a) / 1000)

-- The difference in milliseconds.
unfoldable pub sub_msec : TimeVal → TimeVal → ℤ
unfolding msec_of_usec
sub_msec a b = sub_ℕ (a.sec * 1000) (b.sec * 1000) +ℤ msec_of_usec a.usec b.usec

-- The difference between a time and the same time some milliseconds later is these milliseconds.
-- The time has less than a second of microseconds.
pub sub_msec-add_msec : (a : TimeVal) (n : ℕ) → a.usec < 1000000 → sub_msec (add_msec a n) a ≡ pos n
unfolding sub_msec add_msec ◌+ℤ◌
sub_msec-add_msec a n h = ground arith

-- A longer delay ends later, a fraction of a whole second included.
pub before-add_msec :
    (a : TimeVal) (m n : ℕ)
    → a.usec < 1000000
    → m < n
    → before (add_msec a m) (add_msec a n) ≡ Bool.true
unfolding before add_msec
before-add_msec a m n h l = ground arith
