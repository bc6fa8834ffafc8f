-- ===== src/Tests/Ranges.antt =====
-- Constraints and ranges.
use distributed_games.Base.{◌≡◌, ◌↔◌, true, false, pos, arith, ◌≤ℤ◌, ◌<ℤ◌}
use distributed_games.Constraint.{Constraint, NodeRange, get_route_directions}
use distributed_games.Constraint.Routing.{Meets, Owns, directions_inner}
use distributed_games.Tests.Samples.{span}

abbrev inner : NodeRange
inner = record { attr_index = pos 1; min = pos 40; max = pos 60 }

abbrev wrapped : NodeRange
wrapped = record { attr_index = pos 1; min = pos 900; max = pos 20 }

abbrev last : NodeRange
last = record { attr_index = pos 1; min = pos 60; max = pos 999 }

directions_inner_example :
    let d = get_route_directions inner false span in
    ((d.left ≡ true) ↔ Meets span (λ v. v <ℤ inner.min))
    × ((d.center ≡ true) ↔ Meets span (Owns inner false))
    × ((d.right ≡ true) ↔ Meets span (λ v. inner.max ≤ℤ v))
directions_inner_example = directions_inner span inner (omega arith) (omega arith)

abbrev end_point : Constraint
end_point = record { attr_index = pos 1; min = pos 100; max = pos 100 }

abbrev rest_of_ring : NodeRange
rest_of_ring = record { attr_index = pos 1; min = pos 20; max = pos 900 }
