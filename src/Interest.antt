-- ===== src/Interest.antt =====
-- mercury/Interest.h and mercury/Interest.cpp: subscriptions. The type byte is 0, as
-- `RegisterInterestTypes` registers one type.
pub mod Wire
pub mod Matching
use distributed_games.TimeVal.{TimeVal, time_none, before, at_most, add_msec}
use distributed_games.Base.{
  ℕ, ◌+◌, Bool, true, false, Option, none, some, List, [], ◌∷◌, ◌==◌, if◌then◌else◌, ℤ,
}
use distributed_games.Packet.{
  M, pure, ◌>>=◌, ◌>>◌, write_byte, read_byte, write_int, read_int, write_list, read_list, lengths,
}
use distributed_games.AutoSerializer.{create_object}
use distributed_games.Address.{
  IpEndPoint, Guid, equals_guid, serialize_guid, construct_guid, get_length_guid,
}
use distributed_games.Address
use distributed_games.Constraint.{Constraint}
use distributed_games.Constraint.Vector.{find_by_attr, put_by_attr}
use distributed_games.Constraint
use distributed_games.Event.{Event, get_constraint_by_attr}

pub record Interest : Type 0 where
  pub guid : Guid
  pub subscriber : IpEndPoint
  pub lifetime : ℕ
  pub nonce : ℕ
  pub death_time : TimeVal
  pub constraints : List Constraint

-- The constructors from a subscriber and a GUID (`sid_none`, `guid_none` where they are not given);
-- `sub_lifetime` is the preference and `nonce` what `CreateNonce` gave.
pub new_interest : IpEndPoint → Guid → ℕ → ℕ → Interest
new_interest subscriber guid sub_lifetime nonce = record {
  guid = guid;
  subscriber = subscriber;
  lifetime = sub_lifetime;
  nonce = nonce;
  death_time = time_none;
  constraints = [];
}

unfoldable pub get_constraint : Interest → ℤ → Option Constraint
get_constraint i attr = find_by_attr attr i.constraints

pub add_constraint : Interest → Constraint → Interest
add_constraint i c = record i { constraints = put_by_attr c i.constraints }

-- The loop of `Overlaps`.
unfoldable pub overlaps_from : Bool → List Constraint → Event → Bool
overlaps_from tried [] evt = tried
overlaps_from tried (c ∷ cs) evt = elim (get_constraint_by_attr evt c.attr_index) [
  | some oc ↦ if Constraint.overlaps c oc then overlaps_from true cs evt else false
  | none ↦ overlaps_from tried cs evt
]

unfoldable pub overlaps : Interest → Event → Bool
overlaps i evt = overlaps_from false i.constraints evt

pub is_equal : Interest → Interest → Bool
is_equal i other = equals_guid i.guid other.guid

pub serialize : Interest → M (Unit {0})
serialize i = do
  write_byte 0
  Address.serialize i.subscriber
  serialize_guid i.guid
  write_list Constraint.serialize i.constraints
  write_int i.lifetime
  write_int i.nonce

pub construct : M Interest
construct = do
  _ ← read_byte
  subscriber ← Address.construct
  guid ← construct_guid
  constraints ← read_list Constraint.construct
  lifetime ← read_int
  nonce ← read_int
  pure (record {
    guid = guid;
    subscriber = subscriber;
    lifetime = lifetime;
    nonce = nonce;
    death_time = time_none;
    constraints = constraints;
  })

pub create_interest : M Interest
create_interest = create_object 1 (λ t. construct)

pub get_length : Interest → ℕ
get_length i =
    1
    + Address.get_length i.subscriber
    + 4
    + get_length_guid i.guid
    + lengths Constraint.get_length i.constraints
    + 4
    + 4
