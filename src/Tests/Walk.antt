-- ===== src/Tests/Walk.antt =====
-- A message with a range of values on a chain of nodes.
use distributed_games.Base.{◌↔◌, refl, true, false, pos, [], ◌∷◌, arith}
use mathlib.Core.List.{Memᴰ}
use distributed_games.Address.{IpEndPoint}
use distributed_games.Tests.Hops.{low}
use distributed_games.Value.{Value}
use distributed_games.Constraint.Routing.{Meets, Owns}
use distributed_games.PubsubRouter.{Router}
use distributed_games.PubsubRouter.Walk.{walk, walk_iff}
use distributed_games.Tests.Samples.{node, span}

abbrev router : IpEndPoint → IpEndPoint → Value → Value → Router
router address next from to = record {
  address = address;
  own = record { attr_index = pos 1; min = from; max = to };
  absmin = pos 0;
  absmax = pos 999;
  am_rightmost = false;
  successor = next;
  fanout_pubs = false;
  max_message_ttl = 50;
  check_app_linear = true;
  check_app_route = true;
}

abbrev first : Router
first = router low.address node (pos 0) (pos 40)

abbrev second : Router
second = router node low.address (pos 40) (pos 90)

walk_iff_example :
    Memᴰ second (walk span 0 (first ∷ second ∷ []))
    ↔ (Memᴰ second (first ∷ second ∷ []) × Meets span (Owns second.own false))
walk_iff_example = walk_iff span 0 (first ∷ second ∷ []) second (
  ((omega arith, omega arith, omega arith, omega arith), refl, omega arith, refl),
  (omega arith, refl),
  ((omega arith, omega arith, omega arith, omega arith), refl, omega arith, refl),
)
