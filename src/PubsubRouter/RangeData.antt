-- ===== src/PubsubRouter/RangeData.antt =====
-- How a message with a range of values is routed.
use distributed_games.Base.{
  ℕ, ◌<◌, ◌≡◌, ◌↔◌, true, false, Option, some, ◌≤ℤ◌, ◌<ℤ◌, arith, not, ◌&&◌, if◌then◌else◌,
}
use distributed_games.Address.{IpEndPoint}
use distributed_games.Constraint.{Constraint, Directions, get_route_directions}
use distributed_games.Constraint.Routing.{Meets, Owns, directions_inner}
use distributed_games.Constraint.Overlap.{clamp_in_bounds}
use distributed_games.PubsubRouter.{
  Router, Routed, route_range_data, route_left_end, route_to_left_end, route_linearly, in_bounds,
}

-- A message that the checks let through: ordered, within the bounds, and not too old.
abbrev pub IsRoutable : Router → Constraint → ℕ → Type 0
IsRoutable n c hop_count =
    (c.min ≤ℤ c.max) × (n.absmin ≤ℤ c.min) × (c.max ≤ℤ n.absmax) × (hop_count < n.max_message_ttl)

module _ (n : Router) (c : Constraint) (hop_count : ℕ) (hop : Option IpEndPoint)
    (ok : IsRoutable n c hop_count) (inner : n.am_rightmost ≡ false)
    (flat : n.own.min <ℤ n.own.max) where
  pub directions : Directions
  directions = get_route_directions n.own false c

  pub linear_lem :
      route_range_data n (some c) true hop_count hop ≡ some (route_linearly n directions)
  unfolding route_range_data in_bounds directions
  linear_lem = rw (clamp_in_bounds n.absmin n.absmax c ok.1 ok.2, inner) (ground arith)

  routed_lem :
      route_range_data n (some c) false hop_count hop
      ≡ some (
          if not directions.left && directions.center
          then route_left_end n directions
          else route_to_left_end n hop)
  unfolding route_range_data in_bounds directions
  routed_lem = rw (clamp_in_bounds n.absmin n.absmax c ok.1 ok.2, inner) (ground arith)

  pub facts :
      ((directions.left ≡ true) ↔ Meets c (λ v. v <ℤ n.own.min))
      × ((directions.center ≡ true) ↔ Meets c (Owns n.own false))
      × ((directions.right ≡ true) ↔ Meets c (λ v. n.own.max ≤ℤ v))
  unfolding directions
  facts = directions_inner c n.own ok.0 flat

  pub right_iff : (directions.right ≡ true) ↔ (n.own.max ≤ℤ c.max)
  right_iff = (
    λ e. let m = facts.2.0 e in omega (arith, m.1, m.2),
    λ h. facts.2.1 (c.max, (ok.0, omega arith), h),
  )

  left_iff : (directions.left ≡ true) ↔ (c.min <ℤ n.own.min)
  left_iff = (
    λ e. let m = facts.0.0 e in omega (arith, m.1, m.2),
    λ h. facts.0.1 (c.min, (omega arith, ok.0), h),
  )

  center_iff : n.own.min ≤ℤ c.min → (directions.center ≡ true) ↔ (c.min <ℤ n.own.max)
  center_iff low = (
    λ e. let m = facts.1.0 e in omega (arith, m.1, m.2),
    λ h. facts.1.1 (c.min, (omega arith, ok.0), (low, h)),
  )

  -- In linear mode a node that is not the rightmost and does not pass the end of the ring handles a
  -- routable message exactly if its range meets the constraint, and sends it on to its successor
  -- exactly if the constraint reaches past the range and the application lets it.
  pub linear_step :
      (out : Routed) × (route_range_data n (some c) true hop_count hop ≡ some out)
      × ((out.handled ≡ true) ↔ Meets c (Owns n.own false))
      × ((out.next_hop ≡ some n.successor) ↔ ((n.own.max ≤ℤ c.max) × (n.check_app_linear ≡ true)))
  unfolding route_linearly
  linear_step = (
    route_linearly n directions,
    linear_lem,
    facts.1,
    (
      λ e. (right_iff.0 (ground arith), ground arith),
      λ (reach, app). let r = right_iff.1 reach in ground arith,
    ),
  )

  at_minimum :
      ((if not directions.left && directions.center
          then route_left_end n directions
          else route_to_left_end n hop).made_linear
        ≡ true)
      ↔ Owns n.own false c.min
  unfolding route_left_end route_to_left_end
  at_minimum = (
    λ e.
        let low : n.own.min ≤ℤ c.min = ground (arith, left_iff.1) in
        (low, (center_iff low).0 (ground arith)),
    λ (low, high). let center = (center_iff low).1 high in ground (arith, left_iff.0),
  )

  -- Before linear mode, a routable message is handled and switched to linear mode exactly at the
  -- node that owns the minimum of the constraint. The node is not the rightmost and does not pass
  -- the end of the ring.
  pub left_end_step :
      (out : Routed) × (route_range_data n (some c) false hop_count hop ≡ some out)
      × ((out.made_linear ≡ true) ↔ Owns n.own false c.min)
      × (out.handled ≡ out.made_linear)
  unfolding route_left_end route_to_left_end
  left_end_step = (
    (if not directions.left && directions.center
        then route_left_end n directions
        else route_to_left_end n hop),
    routed_lem,
    at_minimum,
    ground arith,
  )
