-- ===== src/PubsubRouter/Handover.antt =====
-- mercury/PubsubRouter.cpp: what a node does with its stored publications and subscriptions when
-- ranges change. They are treated alike, through the operations of an `Item`.
pub mod Kept
pub mod Expiring
use distributed_games.TimeVal.{TimeVal, time_none, before, at_most, add_msec}
use distributed_games.Base.{
  ℕ, ◌+◌, ◌*◌, ◌/◌, ◌%◌, Bool, true, false, not, ◌&&◌, ◌||◌, ltb, leb, if◌then◌else◌, Option, none,
  some, List, [], ◌∷◌, ◌++◌, pos,
}
use distributed_games.Int32.{to_uint32}
use distributed_games.TimeVal.{TimeVal, sub_msec}
use distributed_games.Constraint.{Constraint, NodeRange, overlaps_node_range}
use distributed_games.Event.{get_constraint_by_attr}
use distributed_games.Interest.{Interest, get_constraint}
use distributed_games.Message.Routing.{Publication}
use distributed_games.PubsubStore.{PubsubStore, store_sub, store_trigger}

pub record Item (A : Type 0) : Type 0 where
  pub death_time : A → TimeVal
  pub constraint : A → Option Constraint
  pub set_life_time : ℕ → A → A

-- In the hub with a number. A null constraint is dereferenced.
abbrev pub interest_item : ℕ → Item Interest
interest_item hub_id = record {
  death_time = λ i. i.death_time;
  constraint = λ i. get_constraint i (pos hub_id);
  set_life_time = λ n i. record i { lifetime = n };
}

abbrev pub trigger_item : ℕ → Item Publication
trigger_item hub_id = record {
  death_time = λ p. p.event.death_time;
  constraint = λ p. get_constraint_by_attr p.event (pos hub_id);
  set_life_time = λ n p. record p { event = record p.event { lifetime = n } };
}

-- `SetLifeTime (GetDeathTime () - now)`, with a `uint32`.
unfoldable pub renew : {A : Type 0} → Item A → TimeVal → A → A
renew k now i = k.set_life_time (to_uint32 (sub_msec (k.death_time i) now)) i

pub record Handed (A : Type 0) : Type 0 where
  pub kept : List A
  pub sent : List A

-- `handoversub_predicate` and `handovertrigger_predicate` for one item, after those behind it.
unfoldable pub hand_one :
    {A : Type 0} → Item A → TimeVal → NodeRange → NodeRange → A → Handed A → Option (Handed A)
unfolding renew
hand_one k now own range i h =
    if at_most (k.death_time i) now then some h else elim (k.constraint i) [
      | none ↦ none
      | some c ↦
          if not (overlaps_node_range c range)
          then some (record { kept = i ∷ h.kept; sent = h.sent })
          else some (record {
            kept = if not (overlaps_node_range c own) then h.kept else renew k now i ∷ h.kept;
            sent = renew k now i ∷ h.sent;
          })
    ]

-- `HandoverSubscriptions` and `HandoverTriggers`: what is left, and what the neighbour with `range`
-- is sent, by a node that now has the range `own`.
unfoldable pub hand_over :
    {A : Type 0} → Item A → TimeVal → NodeRange → NodeRange → List A → Option (Handed A)
unfolding hand_one
hand_over k now own range [] = some (record { kept = []; sent = [] })
hand_over k now own range (i ∷ is) = elim (hand_over k now own range is) [
  | none ↦ none
  | some h ↦ hand_one k now own range i h
]

-- `GetMatchingSubscriptions` and `GetMatchingTriggers`
unfoldable pub get_matching : {A : Type 0} → Item A → NodeRange → List A → Option (List A)
get_matching k range [] = some []
get_matching k range (i ∷ is) = elim (k.constraint i) [
  | none ↦ none
  | some c ↦ elim (get_matching k range is) [
    | none ↦ none
    | some m ↦ some (if overlaps_node_range c range then i ∷ m else m)
  ]
]

-- One of the two loops of `PurgeOutofRangeData`.
pub purge : {A : Type 0} → Item A → TimeVal → NodeRange → List A → Option (List A)
purge k now range [] = some []
purge k now range (i ∷ is) = elim (purge k now range is) [
  | none ↦ none
  | some m ↦ if at_most (k.death_time i) now then some m else elim (k.constraint i) [
    | none ↦ none
    | some c ↦ some (if overlaps_node_range c range then i ∷ m else m)
  ]
]

pub purge_out_of_range_data : ℕ → TimeVal → NodeRange → PubsubStore → Option PubsubStore
purge_out_of_range_data hub_id now range s = elim (purge (interest_item hub_id) now range s.subs) [
  | none ↦ none
  | some subs ↦ elim (purge (trigger_item hub_id) now range s.triggers) [
    | none ↦ none
    | some triggers ↦ some (record { subs = subs; triggers = triggers })
  ]
]

-- `AddNewInterest` at a node with a range.
unfoldable pub add_new_interest : ℕ → NodeRange → Interest → PubsubStore → Option PubsubStore
add_new_interest hub_id own i s = elim (get_constraint i (pos hub_id)) [
  | none ↦ none
  | some c ↦ some (if not (overlaps_node_range c own) then s else store_sub i s)
]

-- `AddNewTrigger`, with the sum of a time and a number of milliseconds.
unfoldable pub add_new_trigger :
    ℕ → TimeVal → NodeRange → Publication → PubsubStore → Option PubsubStore
add_new_trigger hub_id now own p s = elim (get_constraint_by_attr p.event (pos hub_id)) [
  | none ↦ none
  | some c ↦ some (
      if not (overlaps_node_range c own)
      then s
      else store_trigger
          (record p { event = record p.event { death_time = add_msec now p.event.lifetime } }) s)
]

-- `HandleSubscriptionList`
unfoldable pub handle_subscription_list :
    ℕ → NodeRange → List Interest → PubsubStore → Option PubsubStore
handle_subscription_list hub_id own [] s = some s
handle_subscription_list hub_id own (i ∷ is) s = elim (add_new_interest hub_id own i s) [
  | none ↦ none
  | some t ↦ handle_subscription_list hub_id own is t
]

-- `HandleTriggerList`
unfoldable pub handle_trigger_list :
    ℕ → TimeVal → NodeRange → List Publication → PubsubStore → Option PubsubStore
handle_trigger_list hub_id now own [] s = some s
handle_trigger_list hub_id now own (p ∷ ps) s = elim (add_new_trigger hub_id now own p s) [
  | none ↦ none
  | some t ↦ handle_trigger_list hub_id now own ps t
]
