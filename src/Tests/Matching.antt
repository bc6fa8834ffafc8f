-- ===== src/Tests/Matching.antt =====
-- Events, interests and the store.
use distributed_games.Base.{◌≡◌, ◌↔◌, true, pos, [], ◌∷◌, arith}
use distributed_games.Packet.Writes.{All}
use distributed_games.Event.{Event, new_event, add_tuple}
use distributed_games.Interest.{overlaps}
use distributed_games.Interest.Matching.{Any, IsShared, Agrees, overlaps_event_iff}
use distributed_games.PubsubStore.{PubsubStore}
use distributed_games.Tests.Samples.{event, interest, publication}

overlaps_event_iff_example :
    (overlaps interest event ≡ true)
    ↔ (Any (IsShared event) interest.constraints × All (Agrees event) interest.constraints)
overlaps_event_iff_example = overlaps_event_iff interest event (omega arith, tt) (omega arith, tt)

abbrev store : PubsubStore
store = record {
  triggers = publication ∷ [];
  subs = record interest { death_time = record { sec = 0; usec = 500 } } ∷ [];
}

abbrev one_tuple : Event
one_tuple = add_tuple (new_event true 5) (pos 2) (pos 7)
