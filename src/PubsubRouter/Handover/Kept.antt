-- ===== src/PubsubRouter/Handover/Kept.antt =====
-- What becomes of the stored items when a node hands over a part of its range.
use distributed_games.Int32.{to_uint32}
use distributed_games.TimeVal.{sub_msec, TimeVal, at_most}
use distributed_games.Base.{
  Bool, true, false, not, ◌&&◌, ◌||◌, ◌≡◌, refl, if◌then◌else◌, none, some, List, [], ◌∷◌, map,
  arith, Bool-cases, inl, inr,
}
use distributed_games.Constraint.{Constraint, NodeRange, overlaps_node_range}
use distributed_games.PubsubStore.{matching}
use distributed_games.PubsubRouter.Handover.{Item, renew, hand_one, hand_over}

module _ {A : Type 0} (k : Item A) (now : TimeVal) where
  abbrev pub is_live : A → Bool
  is_live i = not (at_most (k.death_time i) now)

  abbrev pub meets : NodeRange → A → Bool
  meets range i = elim (k.constraint i) [ none ↦ false | some c ↦ overlaps_node_range c range ]

  -- With the milliseconds that it has left for its life time.
  abbrev pub with_time_left : A → A
  with_time_left i = k.set_life_time (to_uint32 (sub_msec (k.death_time i) now)) i

  -- Every item has a constraint on the hub's attribute, or is dead.
  abbrev pub AreRouted : List A → Type 0
  AreRouted [] = Unit {0}
  AreRouted (i ∷ is) =
      (is_live i ≡ true → (c : Constraint) × (k.constraint i ≡ some c)) × AreRouted is

  module _ (own range : NodeRange) where
    abbrev pub goes : A → Bool
    goes i = is_live i && meets range i

    abbrev pub stays : A → Bool
    stays i = is_live i && (not (meets range i) || meets own i)

    abbrev pub renewed : A → A
    renewed i = if meets range i then with_time_left i else i

    -- A node that hands over a part of its range sends just the live items that meet it, and keeps,
    -- in their order, just the live ones that do not or that also meet the range that it has left.
    -- Those that meet the part get for their life time the milliseconds to their time of death.
    -- Every live item has a constraint on the hub's attribute.
    pub hand_over_lem :
        (is : List A)
        → AreRouted is
        → hand_over k now own range is
          ≡ some (record {
            kept = map renewed (matching stays is);
            sent = map with_time_left (matching goes is);
          })
    unfolding hand_over hand_one renew matching
    hand_over_lem [] h = refl
    hand_over_lem (i ∷ is) h = elim (Bool-cases (at_most (k.death_time i) now)) [
      | inl dead ↦ ground (arith, hand_over_lem is h.1)
      | inr live ↦ let (c, e) = h.0 (ground arith) in ground (arith, e, hand_over_lem is h.1)
    ]
