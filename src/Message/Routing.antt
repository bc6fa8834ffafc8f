-- ===== src/Message/Routing.antt =====
-- `MsgPublication`, `MsgLinearPublication`, `MsgSubscription` and `MsgLinearSubscription`
-- (mercury/Message.h, mercury/Message.cpp), without the fields that `RECORD_ROUTE` adds.
use distributed_games.Base.{
  ℕ, ◌+◌, ◌-◌, ◌/◌, ◌%◌, ◌≡◌, refl, Bool, true, ◌==◌, if◌then◌else◌, [], ◌∷◌, ◌++◌, arith, ◌≤◌,
  some,
}
use distributed_games.Packet.{M, pure, ◌>>=◌, ◌>>◌, write_byte, read_byte}
use distributed_games.Packet.Codec.{Begins, Begins-append, IsCodec, length-then, round_trip}
use distributed_games.Packet.Transmit.{arrives}
use distributed_games.Packet.Writes.{Writes-then, Writes-byte}
use distributed_games.Packet.Reads.{Reads-bind, Reads-map, Reads-byte}
use distributed_games.Value.{Value}
use distributed_games.Value
use distributed_games.Value.Wire as ValueWire
use distributed_games.Address.{IpEndPoint}
use distributed_games.Address
use distributed_games.Address.Wire as AddressWire
use distributed_games.Event.{Event, create_event}
use distributed_games.Event
use distributed_games.Event.Wire as EventWire
use distributed_games.Interest.{Interest, create_interest}
use distributed_games.Interest
use distributed_games.Interest.Wire as InterestWire
use distributed_games.Message.{Message}
use distributed_games.Message
use distributed_games.Message.Wire as HeaderWire

-- `metadata` is 1 while the message is routed to the left end, and 2 from there on.
pub record Publication : Type 0 where
  pub header : Message
  pub creator : IpEndPoint
  pub metadata : ℕ
  pub event : Event

pub new_publication : Message → Event → IpEndPoint → Publication
new_publication header event creator = record {
  header = header;
  creator = creator;
  metadata = 1;
  event = event;
}

-- `ChangeModeToLinear` and `IsRoutingModeLinear`
pub make_linear : Publication → Publication
make_linear m = record m { metadata = 2 }

pub is_linear : Publication → Bool
is_linear m = m.metadata == 2

pub serialize_publication : Publication → M (Unit {0})
serialize_publication m = do
  Message.serialize m.header
  Address.serialize m.creator
  write_byte m.metadata
  Event.serialize m.event

pub construct_publication : M Publication
construct_publication = do
  header ← Message.construct
  creator ← Address.construct
  metadata ← read_byte
  event ← create_event
  pure (record { header = header; creator = creator; metadata = metadata; event = event })

pub get_length_publication : Publication → ℕ
get_length_publication m =
    Message.get_length m.header + (Address.get_length m.creator + (1 + Event.get_length m.event))

abbrev pub IsWirePublication : Publication → Type 0
IsWirePublication m =
    HeaderWire.IsWire m.header × AddressWire.IsWire m.creator × EventWire.IsWire m.event

pub publication_codec :
    IsCodec serialize_publication construct_publication get_length_publication IsWirePublication
unfolding serialize_publication construct_publication get_length_publication
publication_codec = record {
  bytes = λ m.
      HeaderWire.codec.bytes m.header
      ++ (AddressWire.codec.bytes m.creator
          ++ ((m.metadata ∷ []) ++ EventWire.codec.bytes m.event));
  writes = λ m h. Writes-then (HeaderWire.codec.writes m.header h.0) (
      Writes-then (AddressWire.codec.writes m.creator h.1)
        (Writes-then (Writes-byte m.metadata) (EventWire.codec.writes m.event h.2)));
  reads = λ m h. Reads-bind _ (HeaderWire.codec.reads m.header h.0) (
      Reads-bind _ (AddressWire.codec.reads m.creator h.1)
        (Reads-bind _ (Reads-byte m.metadata) (Reads-map _ (EventWire.codec.reads m.event h.2))));
  sized = λ m h. length-then _ _ (HeaderWire.codec.sized m.header h.0) (
      length-then _ _ (AddressWire.codec.sized m.creator h.1)
        (length-then (m.metadata ∷ []) _ refl (EventWire.codec.sized m.event h.2)));
}

pub publication_codec-Begins : (m : Publication) → Begins m.header.type (publication_codec.bytes m)
unfolding publication_codec
publication_codec-Begins m = Begins-append _ (HeaderWire.codec-Begins m.header)

pub record LinearPublication : Type 0 where
  pub publication : Publication
  pub stopval : Value

pub serialize_linear_publication : LinearPublication → M (Unit {0})
serialize_linear_publication m = do serialize_publication m.publication; Value.serialize m.stopval

pub construct_linear_publication : M LinearPublication
construct_linear_publication = do
  publication ← construct_publication
  stopval ← Value.construct
  pure (record { publication = publication; stopval = stopval })

pub get_length_linear_publication : LinearPublication → ℕ
get_length_linear_publication m = get_length_publication m.publication + Value.get_length m.stopval

abbrev pub IsWireLinearPublication : LinearPublication → Type 0
IsWireLinearPublication m = IsWirePublication m.publication × ValueWire.IsWire m.stopval

pub linear_publication_codec :
    IsCodec serialize_linear_publication construct_linear_publication get_length_linear_publication
      IsWireLinearPublication
unfolding serialize_linear_publication construct_linear_publication get_length_linear_publication
linear_publication_codec = record {
  bytes = λ m. publication_codec.bytes m.publication ++ ValueWire.codec.bytes m.stopval;
  writes = λ m h.
      Writes-then (publication_codec.writes m.publication h.0)
        (ValueWire.codec.writes m.stopval h.1);
  reads = λ m h.
      Reads-bind _ (publication_codec.reads m.publication h.0)
        (Reads-map _ (ValueWire.codec.reads m.stopval h.1));
  sized = λ m h.
      length-then _ _ (publication_codec.sized m.publication h.0)
        (ValueWire.codec.sized m.stopval h.1);
}

pub linear_publication_codec-Begins :
    (m : LinearPublication) → Begins m.publication.header.type (linear_publication_codec.bytes m)
unfolding linear_publication_codec
linear_publication_codec-Begins m = Begins-append _ (publication_codec-Begins m.publication)

-- `metadata` is a set of bits: 1 for a subscription that is cancelled, 2 while it is routed to the
-- left end, 4 from there on.
pub record Subscription : Type 0 where
  pub header : Message
  pub creator : IpEndPoint
  pub metadata : ℕ
  pub interest : Interest

pub new_subscription : Message → Interest → IpEndPoint → Subscription
new_subscription header interest creator = record {
  header = header;
  creator = creator;
  metadata = 2;
  interest = interest;
}

pub set_unsubscribe : Subscription → Subscription
set_unsubscribe m = record m {
  metadata = if m.metadata % 2 == 0 then m.metadata + 1 else m.metadata;
}

clear_left : ℕ → ℕ
clear_left b = if b / 2 % 2 == 1 then b - 2 else b

set_linear : ℕ → ℕ
set_linear b = if b / 4 % 2 == 0 then b + 4 else b

-- `ChangeModeToLinear` and `IsRoutingModeLinear`
pub make_linear_subscription : Subscription → Subscription
make_linear_subscription m = record m { metadata = set_linear (clear_left m.metadata) }

pub is_unsubscribe : Subscription → Bool
is_unsubscribe m = m.metadata % 2 == 1

pub is_linear_subscription : Subscription → Bool
is_linear_subscription m = m.metadata / 4 % 2 == 1

-- A subscription that was switched to linear routing is routed linearly and stays cancelled or not
-- as it was; one that was cancelled is so and keeps its way of routing.
pub modes_independent :
    (m : Subscription)
    → (is_linear_subscription (make_linear_subscription m) ≡ true)
      × (is_unsubscribe (make_linear_subscription m) ≡ is_unsubscribe m)
      × (is_unsubscribe (set_unsubscribe m) ≡ true)
      × (is_linear_subscription (set_unsubscribe m) ≡ is_linear_subscription m)
unfolding is_linear_subscription make_linear_subscription set_linear clear_left is_unsubscribe
    set_unsubscribe
modes_independent m = (ground arith, ground arith, ground arith, ground arith)

pub serialize_subscription : Subscription → M (Unit {0})
serialize_subscription m = do
  Message.serialize m.header
  Address.serialize m.creator
  write_byte m.metadata
  Interest.serialize m.interest

pub construct_subscription : M Subscription
construct_subscription = do
  header ← Message.construct
  creator ← Address.construct
  metadata ← read_byte
  interest ← create_interest
  pure (record { header = header; creator = creator; metadata = metadata; interest = interest })

pub get_length_subscription : Subscription → ℕ
get_length_subscription m =
    Message.get_length m.header
    + (Address.get_length m.creator + (1 + Interest.get_length m.interest))

abbrev pub IsWireSubscription : Subscription → Type 0
IsWireSubscription m =
    HeaderWire.IsWire m.header × AddressWire.IsWire m.creator × InterestWire.IsWire m.interest

pub subscription_codec :
    IsCodec serialize_subscription construct_subscription get_length_subscription IsWireSubscription
unfolding serialize_subscription construct_subscription get_length_subscription
subscription_codec = record {
  bytes = λ m.
      HeaderWire.codec.bytes m.header
      ++ (AddressWire.codec.bytes m.creator
          ++ ((m.metadata ∷ []) ++ InterestWire.codec.bytes m.interest));
  writes = λ m h. Writes-then (HeaderWire.codec.writes m.header h.0) (
      Writes-then (AddressWire.codec.writes m.creator h.1)
        (Writes-then (Writes-byte m.metadata) (InterestWire.codec.writes m.interest h.2)));
  reads = λ m h. Reads-bind _ (HeaderWire.codec.reads m.header h.0) (
      Reads-bind _ (AddressWire.codec.reads m.creator h.1) (
        Reads-bind _ (Reads-byte m.metadata)
          (Reads-map _ (InterestWire.codec.reads m.interest h.2))));
  sized = λ m h. length-then _ _ (HeaderWire.codec.sized m.header h.0) (
      length-then _ _ (AddressWire.codec.sized m.creator h.1)
        (length-then (m.metadata ∷ []) _ refl (InterestWire.codec.sized m.interest h.2)));
}

pub subscription_codec-Begins :
    (m : Subscription) → Begins m.header.type (subscription_codec.bytes m)
unfolding subscription_codec
subscription_codec-Begins m = Begins-append _ (HeaderWire.codec-Begins m.header)

-- A publication with its stop value arrives as it was in a packet with the room that it asks for.
-- Fields are in their ranges.
pub linear_publication_round_trip :
    (n : ℕ) (m : LinearPublication)
    → IsWireLinearPublication m
    → get_length_linear_publication m ≤ n
    → arrives n (serialize_linear_publication m) construct_linear_publication ≡ some m
linear_publication_round_trip n m h fits = round_trip linear_publication_codec n m h fits

-- A subscription arrives as it was in a packet with the room that it asks for. Fields are in their
-- ranges.
pub subscription_round_trip :
    (n : ℕ) (m : Subscription)
    → IsWireSubscription m
    → get_length_subscription m ≤ n
    → arrives n (serialize_subscription m) construct_subscription ≡ some m
subscription_round_trip n m h fits = round_trip subscription_codec n m h fits
