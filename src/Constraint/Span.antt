-- ===== src/Constraint/Span.antt =====
-- The span of a range is the clockwise distance from its minimum to its maximum.
use distributed_games.Base.{◌+◌, ◌-◌, ◌≡◌, ◌≢◌, ◌≤ℤ◌, arith, pos, ◌+ℤ◌, ◌-ℤ◌, eq_of_parts, int_laws}
use distributed_games.Value.{Value}
use distributed_games.Value.Ring.{gap, sub-gap, clockwise, IsOnRing}
use distributed_games.Constraint.{Constraint, get_span}

wrapped_gap :
    (absmin absmax : Value) (c : Constraint)
    → IsOnRing absmin absmax c.min
    → IsOnRing absmin absmax c.max
    → c.max ≤ℤ c.min
    → absmax -ℤ c.min +ℤ c.max -ℤ absmin ≡ pos (gap absmax absmin - gap c.min c.max)
wrapped_gap absmin absmax c lo hi h = eq_of_parts _ _ (omega int_laws)

-- From one bound of the attribute to the other, the ring is absmax - absmin long, and the span of a
-- range on it is the clockwise distance from its minimum to its maximum.
pub get_span-clockwise :
    (absmin absmax : Value) (c : Constraint)
    → IsOnRing absmin absmax c.min
    → IsOnRing absmin absmax c.max
    → get_span absmin absmax c ≡ pos (clockwise (gap absmax absmin) c.min c.max)
unfolding get_span clockwise
get_span-clockwise absmin absmax c lo hi =
    ground (arith, sub-gap c.max c.min, wrapped_gap absmin absmax c lo hi)

-- Going from one value to another and on to the first is once around.
clockwise-add :
    (lo hi a b : Value)
    → IsOnRing lo hi a
    → IsOnRing lo hi b
    → a ≢ b
    → clockwise (gap hi lo) a b + clockwise (gap hi lo) b a ≡ gap hi lo
unfolding clockwise
clockwise-add lo hi a b ha hb ne = ground (arith, eq_of_parts a b)

-- The spans of the two ranges between two different values of the ring add up to the ring.
pub get_span-add :
    (absmin absmax : Value) (c d : Constraint)
    → IsOnRing absmin absmax c.min
    → IsOnRing absmin absmax c.max
    → d.min ≡ c.max
    → d.max ≡ c.min
    → c.min ≢ c.max
    → get_span absmin absmax c +ℤ get_span absmin absmax d ≡ absmax -ℤ absmin
get_span-add absmin absmax c d lo hi e f ne =
    rw
      (
        get_span-clockwise absmin absmax c lo hi,
        get_span-clockwise absmin absmax d (rw e hi) (rw f lo),
        e,
        f,
      )
      (eq_of_parts _ _ (omega (int_laws, clockwise-add absmin absmax c.min c.max lo hi ne)))
