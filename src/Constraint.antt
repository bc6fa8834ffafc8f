-- ===== src/Constraint.antt =====
-- mercury/Constraint.h and mercury/Constraint.cpp: a range of values of one attribute. It states a
-- subscription's interest (`Interval`) and the part of the ring that a node owns (`NodeRange`),
-- which holds `min`, not `max`, and passes the end of the ring when `max < min`.
pub mod Routing
pub mod Overlap
pub mod Span
pub mod Vector
pub mod Wire
use distributed_games.Base.{
  Bool, true, false, not, ◌&&◌, ◌||◌, if◌then◌else◌, ℕ, ◌+◌, ℤ, pos, negsuc, ltb_ℤ, leb_ℤ, eqb_ℤ,
  ◌+ℤ◌, ◌-ℤ◌,
}
use distributed_games.Packet.{M, pure, ◌>>=◌, ◌>>◌, write_int, read_int}
use distributed_games.Int32.{to_uint32, of_uint32}
use distributed_games.Value.{Value}
use distributed_games.Value

pub record Constraint : Type 0 where
  pub attr_index : ℤ
  pub min : Value
  pub max : Value

abbrev pub NodeRange : Type 0
NodeRange = Constraint

abbrev pub range_none : NodeRange
range_none = record { attr_index = negsuc 0; min = negsuc 0; max = negsuc 0 }

-- the `operator==` on two constraints
unfoldable pub equals : Constraint → Constraint → Bool
equals c1 c2 = eqb_ℤ c1.attr_index c2.attr_index && (eqb_ℤ c1.min c2.min && eqb_ℤ c1.max c2.max)

pub clamp : Value → Value → Constraint → Constraint
clamp amin amax c = record c {
  min = if ltb_ℤ c.min amin then amin else c.min;
  max = if ltb_ℤ amax c.max then amax else c.max;
}

-- Which way a constraint is routed from the node that owns a range: to the nodes on its left, to
-- the node itself, to those on its right. The source returns them through three references.
pub record Directions : Type 0 where
  pub left : Bool
  pub center : Bool
  pub right : Bool

pub get_route_directions_wrapped : NodeRange → Constraint → Directions
get_route_directions_wrapped r c = record {
  left = false;
  center = if leb_ℤ r.max c.min && ltb_ℤ c.max r.min then false else true;
  right = true;
}

pub get_route_directions : NodeRange → Bool → Constraint → Directions
unfolding get_route_directions_wrapped
get_route_directions r am_rightmost c =
    if ltb_ℤ r.max r.min then get_route_directions_wrapped r c else record {
      left = if ltb_ℤ c.min r.min then true else false;
      center =
          if am_rightmost
          then if ltb_ℤ c.max r.min || ltb_ℤ r.max c.min then false else true
          else if ltb_ℤ c.max r.min || leb_ℤ r.max c.min
          then false
          else true;
      right = if am_rightmost then false else if leb_ℤ r.max c.max then true else false;
    }

unfoldable pub covers : Constraint → Value → Bool
covers c v =
    if ltb_ℤ c.max c.min then leb_ℤ c.min v && ltb_ℤ v c.max else leb_ℤ c.min v && ltb_ℤ v c.max

unfoldable pub overlaps : Constraint → Constraint → Bool
overlaps c oc = leb_ℤ oc.min c.min && leb_ℤ c.min oc.max || leb_ℤ c.min oc.min && leb_ℤ oc.min c.max

unfoldable pub overlaps_node_range : Constraint → NodeRange → Bool
unfolding overlaps
overlaps_node_range c nr =
    if ltb_ℤ nr.min nr.max
    then overlaps c nr
    else if leb_ℤ nr.max c.min && ltb_ℤ c.max nr.min
    then false
    else true

unfoldable pub get_span : Value → Value → Constraint → Value
get_span absmin absmax c =
    if ltb_ℤ c.min c.max
    then c.max -ℤ c.min
    else if eqb_ℤ c.min c.max
    then pos 0
    else absmax -ℤ c.min +ℤ c.max -ℤ absmin

-- The tests of `GetOverlap` before its last lines; `r` is the receiver and `s` the argument.
get_overlap_raw : Constraint → Constraint → Value
get_overlap_raw r s =
    if leb_ℤ s.min r.min && ltb_ℤ r.min s.max
    then if ltb_ℤ r.max s.max then r.max -ℤ r.min else s.max -ℤ r.min
    else if ltb_ℤ s.min r.max && leb_ℤ r.max s.max
    then r.max -ℤ s.min
    else if ltb_ℤ r.min s.max && ltb_ℤ s.max r.max
    then s.max -ℤ s.min
    else pos 0

pub get_overlap : Constraint → Constraint → Value
unfolding get_overlap_raw
get_overlap r s = let ret = get_overlap_raw r s in if ltb_ℤ ret (pos 0) then pos 0 else ret

pub serialize : Constraint → M (Unit {0})
serialize c = do write_int (to_uint32 c.attr_index); Value.serialize c.min; Value.serialize c.max

pub construct : M Constraint
construct = do
  attr_index ← read_int
  min ← Value.construct
  max ← Value.construct
  pure (record { attr_index = of_uint32 attr_index; min = min; max = max })

pub get_length : Constraint → ℕ
get_length c = 4 + (Value.get_length c.min + Value.get_length c.max)
