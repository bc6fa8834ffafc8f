-- ===== src/Tests/Wire.antt =====
-- Values, addresses, constraints, events and interests on the wire.
use distributed_games.Base.{◌≡◌, some, arith}
use distributed_games.Packet.Transmit.{arrives}
use distributed_games.Event
use distributed_games.Event.Wire.{event_round_trip}
use distributed_games.Tests.Samples.{event, event_IsWire}

event_round_trip_example :
    arrives (Event.get_length event) (Event.serialize event) Event.create_event ≡ some event
event_round_trip_example =
    event_round_trip (Event.get_length event) event event_IsWire.0 (omega arith)
