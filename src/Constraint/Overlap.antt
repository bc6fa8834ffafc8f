-- ===== src/Constraint/Overlap.antt =====
-- Which values a constraint covers, and when two constraints share one.
use distributed_games.Base.{
  ◌≡◌, ◌↔◌, Bool, true, false, if◌then◌else◌, arith, pos, ◌≤ℤ◌, ◌<ℤ◌, ltb_ℤ,
}
use distributed_games.Value.{Value}
use distributed_games.Value.Ring.{gap, sub-gap}
use distributed_games.Constraint.{
  Constraint, NodeRange, covers, overlaps, overlaps_node_range, clamp, get_overlap, get_overlap_raw,
  get_route_directions,
}
use distributed_games.Constraint.Routing.{Allows, Meets, Owns}

-- A range that does not pass the end of the ring covers the values from its minimum up to its
-- maximum, without the maximum.
pub covers_iff :
    (c : Constraint) (v : Value) → c.min ≤ℤ c.max → (covers c v ≡ true) ↔ Owns c false v
unfolding covers
covers_iff c v h = (λ e. ground arith, λ o. ground arith)

-- A range that passes the end of the ring covers nothing.
pub covers-wrapped : (c : Constraint) (v : Value) → c.max <ℤ c.min → covers c v ≡ false
unfolding covers
covers-wrapped c v h = ground arith

pub larger : Value → Value → Value
larger a b = if ltb_ℤ a b then b else a

pub smaller : Value → Value → Value
smaller a b = if ltb_ℤ a b then a else b

-- Two ordered constraints overlap exactly when they allow a common value.
pub overlaps_iff :
    (c d : Constraint)
    → c.min ≤ℤ c.max
    → d.min ≤ℤ d.max
    → (overlaps c d ≡ true) ↔ Meets c (Allows d)
unfolding overlaps larger
overlaps_iff c d hc hd =
    (λ e. (larger c.min d.min, ground arith, ground arith), λ (v, a, b). ground arith)

-- Clamping to the bounds of an attribute keeps just the allowed values within the bounds.
pub Allows-clamp :
    (amin amax : Value) (c : Constraint) (v : Value)
    → Allows (clamp amin amax c) v ↔ (Allows c v × (amin ≤ℤ v) × (v ≤ℤ amax))
unfolding clamp
Allows-clamp amin amax c v = (λ a. ground arith, λ a. ground arith)

-- Overlap with a range that passes the end of the ring is what the routing takes for its center.
pub overlaps_node_range_wrapped :
    (c : Constraint) (r : NodeRange) (am_rightmost : Bool)
    → r.max <ℤ r.min
    → overlaps_node_range c r ≡ (get_route_directions r am_rightmost c).center
unfolding overlaps_node_range get_route_directions
overlaps_node_range_wrapped c r am_rightmost h = ground arith

common_part :
    (r s : Constraint)
    → r.min <ℤ r.max
    → s.min ≤ℤ s.max
    → get_overlap_raw r s ≡ pos (gap (smaller r.max s.max) (larger r.min s.min))
unfolding get_overlap_raw larger smaller
common_part r s hr hs =
    ground
      (arith, sub-gap r.max r.min, sub-gap s.max r.min, sub-gap r.max s.min, sub-gap s.max s.min)

-- The overlap is the length of the common part, from the larger minimum to the smaller maximum, and
-- 0 if there is none. The receiver holds more than one value.
pub get_overlap_lem :
    (r s : Constraint)
    → r.min <ℤ r.max
    → s.min ≤ℤ s.max
    → get_overlap r s ≡ pos (gap (smaller r.max s.max) (larger r.min s.min))
get_overlap_lem r s hr hs = unfold get_overlap in rw (common_part r s hr hs) (ground arith)

-- With a receiver of one value that is the largest of the argument, the overlap is how far the
-- argument extends below it, although the two share one value only.
pub get_overlap_point :
    (r s : Constraint)
    → r.min ≡ r.max
    → s.max ≡ r.max
    → s.min <ℤ s.max
    → get_overlap r s ≡ pos (gap s.max s.min)
unfolding get_overlap
get_overlap_point r s e f h = ground (arith, sub-gap r.max s.min)

-- A value that is covered lies from the minimum up to the maximum.
pub covers_bounds : (c : Constraint) (v : Value) → covers c v ≡ true → (c.min ≤ℤ v) × (v <ℤ c.max)
unfolding covers
covers_bounds c v h = (ground arith, ground arith)

-- A constraint within the bounds is not changed.
pub clamp_in_bounds :
    (amin amax : Value) (c : Constraint) → amin ≤ℤ c.min → c.max ≤ℤ amax → clamp amin amax c ≡ c
unfolding clamp
clamp_in_bounds amin amax c lo hi = ground arith
