-- ===== src/Event/Tests.antt =====
-- Point events that the tests build.
use distributed_games.Base.{◌≡◌, refl, true, pos, some}
use distributed_games.Constraint.{Constraint}
use distributed_games.Constraint.Vector.{put_by_attr}
use distributed_games.Event.{Event, new_event, add_constraint}

abbrev point : Constraint
point = record { attr_index = pos 1; min = pos 10; max = pos 10 }

abbrev with_point : Event
with_point = record (new_event true 5) {
  constraints = put_by_attr point (new_event true 5).constraints;
}

added_point : add_constraint (new_event true 5) point ≡ some with_point
unfolding add_constraint new_event
added_point = refl
