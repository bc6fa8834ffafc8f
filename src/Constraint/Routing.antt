-- ===== src/Constraint/Routing.antt =====
-- The routing directions of a constraint say where the values that it allows live.
use distributed_games.Base.{
  ◌≡◌, ◌↔◌, ◌⊎◌, inl, inr, Bool-cases, Bool, true, false, if◌then◌else◌, arith, ◌≤ℤ◌, ◌<ℤ◌, ltb_ℤ,
  leb_ℤ,
}
use distributed_games.Value.{Value}
use distributed_games.Constraint.{Constraint, NodeRange, get_route_directions}

abbrev pub Allows : Constraint → Value → Type 0
Allows c v = (c.min ≤ℤ v) × (v ≤ℤ c.max)

-- Some value that the constraint allows satisfies `P`.
abbrev pub Meets : Constraint → (Value → Type 0) → Type 0
Meets c P = (v : Value) × Allows c v × P v

-- The values of a range that does not pass the end of the ring. The node at the right end owns the
-- last value too.
abbrev pub Owns : NodeRange → Bool → Value → Type 0
Owns r true v = (r.min ≤ℤ v) × (v ≤ℤ r.max)
Owns r false v = (r.min ≤ℤ v) × (v <ℤ r.max)

larger : Value → Value → Value
larger a b = if ltb_ℤ a b then b else a

module _ (c : Constraint) (r : NodeRange) (ordered : c.min ≤ℤ c.max) where
  -- At a node that is not the rightmost and whose range does not pass the end of the ring, an
  -- ordered constraint goes left, stays or goes right exactly when it allows a value below the
  -- range, in it, or from its end on.
  pub directions_inner :
      r.min <ℤ r.max
      → let d = get_route_directions r false c in
        ((d.left ≡ true) ↔ Meets c (λ v. v <ℤ r.min))
        × ((d.center ≡ true) ↔ Meets c (Owns r false))
        × ((d.right ≡ true) ↔ Meets c (λ v. r.max ≤ℤ v))
  unfolding get_route_directions larger
  directions_inner flat = (
    (λ e. (c.min, ground arith, ground arith), λ (v, a, b). ground arith),
    (λ e. (larger c.min r.min, ground arith, ground arith), λ (v, a, b). ground arith),
    (λ e. (c.max, ground arith, ground arith), λ (v, a, b). ground arith),
  )

  -- At the rightmost node nothing goes right, an ordered constraint stays exactly when it allows a
  -- value of the range with its end, and goes left exactly when it allows one below. The range does
  -- not pass the end of the ring.
  pub directions_rightmost :
      r.min ≤ℤ r.max
      → let d = get_route_directions r true c in
        ((d.left ≡ true) ↔ Meets c (λ v. v <ℤ r.min))
        × ((d.center ≡ true) ↔ Meets c (Owns r true))
        × (d.right ≡ false)
  unfolding get_route_directions larger
  directions_rightmost flat = (
    (λ e. (c.min, ground arith, ground arith), λ (v, a, b). ground arith),
    (λ e. (larger c.min r.min, ground arith, ground arith), λ (v, a, b). ground arith),
    ground arith,
  )

  meets_sides :
      (am_rightmost : Bool)
      → r.max <ℤ r.min
      → (get_route_directions r am_rightmost c).center ≡ true
      → Meets c (λ v. (r.min ≤ℤ v) ⊎ (v <ℤ r.max))
  unfolding get_route_directions
  meets_sides am_rightmost wrapped e = elim (Bool-cases (leb_ℤ r.min c.max)) [
    | inl above ↦ (c.max, ground arith, inl (ground arith))
    | inr below ↦ (c.min, ground arith, inr (ground arith))
  ]

  -- At the node whose range passes the end of the ring nothing goes left, everything goes right,
  -- and the node is concerned exactly when the ordered constraint allows a value on one of the two
  -- sides.
  pub directions_wrapped :
      (am_rightmost : Bool)
      → r.max <ℤ r.min
      → let d = get_route_directions r am_rightmost c in
        (d.left ≡ false)
        × ((d.center ≡ true) ↔ Meets c (λ v. (r.min ≤ℤ v) ⊎ (v <ℤ r.max)))
        × (d.right ≡ true)
  unfolding get_route_directions
  directions_wrapped am_rightmost wrapped = (
    ground arith,
    (λ e. meets_sides am_rightmost wrapped e, λ (v, a, b). ground arith),
    ground arith,
  )
