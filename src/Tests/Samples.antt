-- ===== src/Tests/Samples.antt =====
-- Data that the tests share: two nodes, two constraints, an event that an interest matches.
use distributed_games.Base.{true, false, [], ◌∷◌, pos, refl, arith}
use distributed_games.Value.Tests.{ten_IsWire, hundred_IsWire}
use distributed_games.TimeVal.{time_none}
use distributed_games.Address.{IpEndPoint, Guid}
use distributed_games.Constraint.{Constraint}
use distributed_games.Constraint.Wire as ConstraintWire
use distributed_games.Event.{Event}
use distributed_games.Event.Wire as EventWire
use distributed_games.Interest.{Interest}
use distributed_games.Interest.Wire as InterestWire
use distributed_games.Message.{Message}
use distributed_games.Message.Wire as MessageWire
use distributed_games.Message.Routing.{Publication, IsWirePublication}

abbrev pub node : IpEndPoint
node = record { ip = 16777343; port = 15000 }

abbrev pub guid : Guid
guid = record { ip = 2130706433; port = 15000; local_oid = 7 }

abbrev pub span : Constraint
span = record { attr_index = pos 1; min = pos 10; max = pos 100 }

abbrev pub point : Constraint
point = record { attr_index = pos 1; min = pos 10; max = pos 10 }

abbrev pub event : Event
event = record {
  is_point = true;
  matched = false;
  lifetime = 5000;
  nonce = 99;
  death_time = time_none;
  trigger_count = 0;
  constraints = point ∷ [];
}

abbrev pub interest : Interest
interest = record {
  guid = guid;
  subscriber = node;
  lifetime = 30000;
  nonce = 12;
  death_time = time_none;
  constraints = span ∷ [];
}

-- a publication's header, type 13 of hub 1
abbrev pub header : Message
header = record { type = 13; sender = node; hub_id = 1; hop_count = 2; nonce = 77 }

abbrev pub publication : Publication
publication = record { header = header; creator = node; metadata = 2; event = event }

pub span_IsWire : ConstraintWire.IsWire span
span_IsWire = ((omega arith, omega arith), ten_IsWire, hundred_IsWire)

pub point_IsWire : ConstraintWire.IsWire point
point_IsWire = ((omega arith, omega arith), ten_IsWire, ten_IsWire)

pub event_IsWire : EventWire.IsWire event
event_IsWire = (((omega arith, (point_IsWire, tt)), omega arith, omega arith), refl, refl)

pub interest_IsWire : InterestWire.IsWire interest
interest_IsWire = (
  (
    (omega arith, omega arith),
    (omega arith, omega arith, omega arith),
    (omega arith, (span_IsWire, tt)),
    omega arith,
    omega arith,
  ),
  refl,
)

pub header_IsWire : MessageWire.IsWire header
header_IsWire =
    (omega arith, (omega arith, omega arith), omega arith, omega arith, λ e. absurd (ground arith))

pub publication_IsWire : IsWirePublication publication
publication_IsWire = (header_IsWire, (omega arith, omega arith), event_IsWire)
