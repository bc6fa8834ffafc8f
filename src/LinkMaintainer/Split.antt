-- ===== src/LinkMaintainer/Split.antt =====
-- The two parts of a range that a node splits.
use distributed_games.Base.{
  ℕ, refl, ◌/◌, ◌+◌, ◌-◌, ◌≡◌, Bool, false, ◌&&◌, ◌||◌, ltb_ℤ, leb_ℤ, if◌then◌else◌, pos, ◌≤ℤ◌,
  ◌<ℤ◌, ◌+ℤ◌, ◌-ℤ◌, arith, ◌⊎◌, inl, inr, Bool-cases, +ℤ_parts, -ℤ_parts, eq_of_parts,
}
use distributed_games.Value.{Value}
use distributed_games.Value.Ring.{gap, IsOnRing}
use distributed_games.Constraint.{NodeRange, get_span}
use distributed_games.LinkMaintainer.{half, get_range_span, middle}

-- The values that a node with a range owns: from its minimum up to its maximum, without that, and
-- past the end of the ring if the maximum is smaller.
abbrev pub owns : NodeRange → Value → Bool
owns r v =
    if ltb_ℤ r.max r.min then leb_ℤ r.min v || ltb_ℤ v r.max else leb_ℤ r.min v && ltb_ℤ v r.max

abbrev pub first_part : Value → Value → NodeRange → NodeRange
first_part absmin absmax r = record r { max = middle absmin absmax r }

abbrev pub second_part : Value → Value → NodeRange → NodeRange
second_part absmin absmax r = record r { min = middle absmin absmax r }

half_pos : (v : Value) (n : ℕ) → v ≡ pos n → half v ≡ pos (n / 2)
unfolding half
half_pos v n e = rw e refl

-- The length of a range that passes the end of the ring, less one.
abbrev room : Value → Value → NodeRange → ℕ
room absmin absmax r = gap absmax r.min + gap r.max absmin - 1

half_wrapped :
    (absmin absmax : Value) (r : NodeRange)
    → absmin ≤ℤ r.max
    → r.max <ℤ r.min
    → r.min ≤ℤ absmax
    → half (get_range_span absmin absmax r) ≡ pos (room absmin absmax r / 2)
unfolding half get_range_span get_span ◌+ℤ◌ ◌-ℤ◌
half_wrapped absmin absmax r lo h hi = ground arith

half_plain :
    (absmin absmax : Value) (r : NodeRange)
    → r.min <ℤ r.max
    → half (get_range_span absmin absmax r) ≡ pos (gap r.max r.min / 2)
unfolding half get_range_span get_span ◌+ℤ◌ ◌-ℤ◌
half_plain absmin absmax r h = ground arith

middle_plain :
    (absmin absmax : Value) (r : NodeRange)
    → r.min <ℤ r.max
    → r.max ≤ℤ absmax
    → middle absmin absmax r ≡ r.min +ℤ pos (gap r.max r.min / 2)
unfolding middle
middle_plain absmin absmax r h hi =
    rw (half_plain absmin absmax r h) (ground (arith, +ℤ_parts r.min (pos (gap r.max r.min / 2))))

middle_inside :
    (absmin absmax : Value) (r : NodeRange)
    → r.min <ℤ r.max
    → r.max ≤ℤ absmax
    → (r.min ≤ℤ middle absmin absmax r) × (middle absmin absmax r <ℤ r.max)
middle_inside absmin absmax r h hi =
    rw (middle_plain absmin absmax r h hi)
      (omega (arith, +ℤ_parts r.min (pos (gap r.max r.min / 2))))

middle_equal :
    (absmin absmax : Value) (r : NodeRange)
    → r.min ≡ r.max
    → r.max ≤ℤ absmax
    → middle absmin absmax r ≡ r.min
unfolding middle half get_range_span get_span ◌+ℤ◌
middle_equal absmin absmax r e hi = ground arith

module _ (absmin absmax : Value) (r : NodeRange) (lo : absmin ≤ℤ r.max) (h : r.max <ℤ r.min)
    (hi : r.min ≤ℤ absmax) where
  abbrev far : Value
  far = r.min +ℤ pos (room absmin absmax r / 2)

  middle_wrapped :
      middle absmin absmax r ≡ (if ltb_ℤ absmax far then far -ℤ absmax +ℤ absmin else far)
  unfolding middle
  middle_wrapped = rw (half_wrapped absmin absmax r lo h hi) refl

  -- The cut of a range that passes the end of the ring lies before the end or behind it.
  middle_cases :
      ((r.min ≤ℤ middle absmin absmax r) × (middle absmin absmax r ≤ℤ absmax))
      ⊎ ((absmin <ℤ middle absmin absmax r) × (middle absmin absmax r ≤ℤ r.max))
  middle_cases =
      let sum = +ℤ_parts r.min (pos (room absmin absmax r / 2)) in
      let difference = -ℤ_parts far absmax in
      let back = +ℤ_parts (far -ℤ absmax) absmin in
      elim (Bool-cases (ltb_ℤ absmax far)) [
        | inl past ↦ inr (rw (middle_wrapped, past) (ground (arith, sum, difference, back)))
        | inr near ↦ inl (rw (middle_wrapped, near) (ground (arith, sum)))
      ]

data Compared (a b : Value) : Type 0 where
  less : a <ℤ b → Compared a b
  same : a ≡ b → Compared a b
  more : b <ℤ a → Compared a b

compare_ℤ : (a b : Value) → Compared a b
compare_ℤ a b = elim (Bool-cases (ltb_ℤ a b)) [
  | inl l ↦ less (ground arith)
  | inr n ↦ elim (Bool-cases (ltb_ℤ b a)) [
    | inl l ↦ more (ground arith)
    | inr m ↦ same (eq_of_parts a b (ground arith))
  ]
]

abbrev IsSplit : NodeRange → NodeRange → NodeRange → Value → Type 0
IsSplit r first second v =
    (owns r v ≡ (owns first v || owns second v)) × ((owns first v && owns second v) ≡ false)

-- Every value of the ring that the range holds is in just one of the two parts, and they hold no
-- other value of the ring.
pub split_lem :
    (absmin absmax : Value) (r : NodeRange) (v : Value)
    → IsOnRing absmin absmax r.min
    → IsOnRing absmin absmax r.max
    → absmin ≤ℤ v
    → v <ℤ absmax
    → IsSplit r (first_part absmin absmax r) (second_part absmin absmax r) v
split_lem absmin absmax r v m n lo hi = elim (compare_ℤ r.min r.max) [
  | less h ↦
      let inside = middle_inside absmin absmax r h n.1 in
      (ground (arith, inside), ground (arith, inside))
  | same e ↦
      let mid = middle_equal absmin absmax r e n.1 in
      (ground (arith, mid, e), ground (arith, mid, e))
  | more h ↦ elim (middle_cases absmin absmax r n.0 h m.1) [
    | inl near ↦ (ground (arith, near), ground (arith, near))
    | inr past ↦ (ground (arith, past), ground (arith, past))
  ]
]

narrow_middle :
    (absmin absmax : Value) (r : NodeRange)
    → r.max ≡ r.min +ℤ pos 1
    → r.max ≤ℤ absmax
    → middle absmin absmax r ≡ r.min
narrow_middle absmin absmax r e hi =
    let sum = +ℤ_parts r.min (pos 1) in
    let longer : r.min <ℤ r.max = ground (arith, sum, e) in
    let inside = middle_inside absmin absmax r longer hi in
    eq_of_parts _ _ (ground (arith, sum, e, inside))

-- The new node gets nothing from a node that holds one value: the range that it is assigned is
-- empty.
pub split_narrow :
    (absmin absmax : Value) (r : NodeRange) (v : Value)
    → r.max ≡ r.min +ℤ pos 1
    → r.max ≤ℤ absmax
    → (owns (first_part absmin absmax r) v ≡ false) × (second_part absmin absmax r ≡ r)
split_narrow absmin absmax r v e hi =
    let mid = narrow_middle absmin absmax r e hi in (rw mid (ground arith), rw mid refl)
