-- ===== src/Event.antt =====
-- mercury/Event.h and mercury/Event.cpp: publications. `MercuryEvent` and `PointEvent` hold the
-- same fields and differ in the type byte and in `AddConstraint`; `is_point` tells them apart.
pub mod Wire
pub mod Point
pub mod Tests
use distributed_games.TimeVal.{TimeVal, time_none, before, at_most, add_msec}
use distributed_games.Base.{
  ℕ, ◌+◌, Bool, true, false, Option, none, some, List, [], ◌==◌, if◌then◌else◌, ℤ, eqb_ℤ, map,
}
use distributed_games.Packet.{
  M, pure, ◌>>=◌, ◌>>◌, bool_byte, write_byte, read_byte, write_int, read_int, write_bool,
  read_bool, write_list, read_list, lengths,
}
use distributed_games.AutoSerializer.{create_object}
use distributed_games.Value.{Value}
use distributed_games.Constraint.{Constraint}
use distributed_games.Constraint.Vector.{find_by_attr, put_by_attr}
use distributed_games.Constraint

pub record Event : Type 0 where
  pub is_point : Bool
  pub matched : Bool
  pub lifetime : ℕ
  pub nonce : ℕ
  pub death_time : TimeVal
  pub trigger_count : ℕ
  pub constraints : List Constraint

-- A new event; `nonce` is what `CreateNonce` gave.
pub new_event : Bool → ℕ → Event
new_event is_point nonce = record {
  is_point = is_point;
  matched = false;
  lifetime = 0;
  nonce = nonce;
  death_time = time_none;
  trigger_count = 0;
  constraints = [];
}

unfoldable pub get_constraint_by_attr : Event → ℤ → Option Constraint
get_constraint_by_attr e attr_index = find_by_attr attr_index e.constraints

-- `MercuryEvent::AddConstraint`, and the one of `PointEvent` with its ASSERT.
pub add_constraint : Event → Constraint → Option Event
add_constraint e c =
    if e.is_point
    then if eqb_ℤ c.min c.max
      then some (record e { constraints = put_by_attr c e.constraints })
      else none
    else some (record e { constraints = put_by_attr c e.constraints })

-- `PointEvent::AddTuple` runs the loop of `AddConstraint` on the point.
pub add_tuple : Event → ℤ → Value → Event
add_tuple e attr value = record e {
  constraints = put_by_attr (record { attr_index = attr; min = value; max = value }) e.constraints;
}

pub get_value_by_attr : Event → ℤ → Option Value
unfolding get_constraint_by_attr
get_value_by_attr e attr_index = elim (get_constraint_by_attr e attr_index) [
  | none ↦ none
  | some c ↦ some c.min
]

-- The header that `Event::Serialize` writes, with the type byte.
serialize_base : Event → M (Unit {0})
serialize_base e = do
  write_byte (bool_byte e.is_point)
  write_int e.nonce
  write_int e.lifetime
  write_bool e.matched

pub serialize : Event → M (Unit {0})
serialize e = do serialize_base e; write_list Constraint.serialize e.constraints

-- The constructor `Event (Packet *)`.
construct_base : Bool → M Event
construct_base is_point = do
  _ ← read_byte
  nonce ← read_int
  lifetime ← read_int
  matched ← read_bool
  pure (record {
    is_point = is_point;
    matched = matched;
    lifetime = lifetime;
    nonce = nonce;
    death_time = time_none;
    trigger_count = 0;
    constraints = [];
  })

pub construct : Bool → M Event
construct is_point = do
  e ← construct_base is_point
  constraints ← read_list Constraint.construct
  pure (record e { constraints = constraints })

-- `CreateObject<Event>` on the types that `RegisterEventTypes` registers.
pub create_event : M Event
create_event = create_object 2 (λ t. construct (if t == 0 then false else true))

get_length_base : ℕ
get_length_base = 1 + (4 + (4 + 1))

pub get_length : Event → ℕ
get_length e = get_length_base + (4 + lengths Constraint.get_length e.constraints)
