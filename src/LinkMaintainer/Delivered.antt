-- ===== src/LinkMaintainer/Delivered.antt =====
-- Where the stored items are after a join, and the notice that comes too early.
use distributed_games.TimeVal.{TimeVal, at_most}
use distributed_games.Base.{
  ◌≡◌, true, false, ◌≤ℤ◌, ◌<ℤ◌, some, List, map, arith, Bool-cases, inl, inr, ◌⊎◌,
}
use mathlib.Core.List.{Memᴰ}
use mathlib.Core.List.Memᴰ
use distributed_games.Value.{Value}
use distributed_games.Value.Ring.{IsOnRing}
use distributed_games.Constraint.{Constraint, NodeRange, overlaps_node_range, overlaps}
use distributed_games.PubsubStore.{matching}
use distributed_games.PubsubStore.Matching.{matching_iff}
use distributed_games.PubsubRouter.Handover.{Item, Handed, hand_over}
use distributed_games.PubsubRouter.Handover.Kept.{
  AreRouted, goes, stays, renewed, with_time_left, hand_over_lem,
}
use distributed_games.LinkMaintainer.Split.{owns, first_part, second_part, split_lem}

-- A constraint that allows a value meets each range that owns the value.
owned-overlaps :
    (c : Constraint) (r : NodeRange) (v : Value)
    → c.min ≤ℤ v
    → v ≤ℤ c.max
    → owns r v ≡ true
    → overlaps_node_range c r ≡ true
unfolding overlaps_node_range overlaps
owned-overlaps c r v lo hi o = ground arith

module _ {A : Type 0} (k : Item A) (now : TimeVal) (absmin absmax : Value) (r : NodeRange)
    (lo : IsOnRing absmin absmax r.min) (hi : IsOnRing absmin absmax r.max) (is : List A)
    (routed : AreRouted k now is) (i : A) (c : Constraint) (v : Value) (listed : Memᴰ i is)
    (live : at_most (k.death_time i) now ≡ false) (cst : k.constraint i ≡ some c)
    (allows : c.min ≤ℤ v) (allows' : v ≤ℤ c.max) (v_lo : absmin ≤ℤ v) (v_hi : v <ℤ absmax)
    (owned : owns r v ≡ true) where
  -- When a node splits its range, every live item stays with the owner of every value that the item
  -- allows: of a value that the node owned, the new node is the owner and is sent the item, or the
  -- node stays the owner and keeps the item. The range lies on the ring, and the stored items have
  -- constraints on the hub's attribute.
  pub hand_over-split :
      let one = first_part absmin absmax r in
      let two = second_part absmin absmax r in
      (h : Handed A) × (hand_over k now two one is ≡ some h)
      × ((owns one v ≡ true) × (owns two v ≡ false) × Memᴰ (with_time_left k now i) h.sent
          ⊎ (owns one v ≡ false) × (owns two v ≡ true) × Memᴰ (renewed k now two one i) h.kept)
  hand_over-split =
      let one = first_part absmin absmax r in
      let two = second_part absmin absmax r in
      let split = split_lem absmin absmax r v lo hi v_lo v_hi in
      (
        record {
          kept = map (renewed k now two one) (matching (stays k now two one) is);
          sent = map (with_time_left k now) (matching (goes k now two one) is);
        },
        hand_over_lem k now two one is routed,
        elim (Bool-cases (owns one v)) [
          | inl first ↦
              let met = owned-overlaps c one v allows allows' first in
              inl (
                first,
                ground (arith, split, first),
                Memᴰ.map (with_time_left k now)
                    ((matching_iff (goes k now two one) i is).1 (listed, ground (arith, cst, met))),
              )
          | inr other ↦
              let second : owns two v ≡ true = ground (arith, split, other, owned) in
              let met = owned-overlaps c two v allows allows' second in
              inr (
                other,
                second,
                Memᴰ.map (renewed k now two one) (
                    (matching_iff (stays k now two one) i is).1 (listed, ground (arith, cst, met))),
              )
        ],
      )
