-- ===== src/PubsubRouter/Rendezvous.antt =====
-- mercury/PubsubRouter.cpp: what a node does with a publication or a subscription that has reached
-- its range: `HandlePubAtRendezvous` and `HandleSubAtRendezvous`. The measurements are off, and the
-- calls that tell the application of a match are left out; what it wants done is a field.
pub mod Hearing
pub mod Orders
use distributed_games.TimeVal.{TimeVal, time_none, before, at_most, add_msec}
use distributed_games.Base.{
  ℕ, ◌+◌, ◌*◌, ◌%◌, Bool, true, false, not, ◌&&◌, ltb, ltb_ℤ, leb, if◌then◌else◌, ℤ, pos, Option,
  none, some, List, [], ◌∷◌, ◌++◌, map,
}
use distributed_games.Int32.{to_uint32}
use distributed_games.TimeVal.{sub_msec}
use distributed_games.Address.{IpEndPoint, equals}
use distributed_games.Constraint.{NodeRange, get_route_directions}
use distributed_games.Interest.{Interest, get_constraint}
use distributed_games.Interest
use distributed_games.Message.Ring.{HeartBeat}
use distributed_games.Message.Routing.{Publication, Subscription}
use distributed_games.Hub.Table.{less_sid}
use distributed_games.PubsubStore.{
  PubsubStore, store_sub, store_trigger, get_overlap_subs, get_overlap_triggers,
}

-- `EventProcessType` and `InterestProcessType`
pub data EventProcess : Type 0 where
  ev_nuke ev_match ev_store ev_match_and_store : EventProcess

pub data InterestProcess : Type 0 where
  in_nuke in_store in_trigger in_store_and_trigger : InterestProcess

abbrev pub is_match : EventProcess → Bool
is_match ev_match = true
is_match ev_match_and_store = true
is_match _ = false

abbrev pub is_store : EventProcess → Bool
is_store ev_store = true
is_store ev_match_and_store = true
is_store _ = false

abbrev pub is_stored : InterestProcess → Bool
is_stored in_store = true
is_stored in_store_and_trigger = true
is_stored _ = false

abbrev pub is_trigger : InterestProcess → Bool
is_trigger in_trigger = true
is_trigger in_store_and_trigger = true
is_trigger _ = false

-- What the handlers read: the node, the settings, the clock, and what the application wants done
-- with the data.
pub record Place : Type 0 where
  pub address : IpEndPoint
  pub hub_id : ℕ
  pub own : NodeRange
  pub am_rightmost : Bool
  pub now : TimeVal
  pub use_cache : Bool
  pub use_softsubs : Bool
  pub enable_pubtriggers : Bool
  pub send_backpub : Bool
  pub event_action : EventProcess
  pub interest_action : InterestProcess
  pub ack_nonce : ℕ

-- The interests of a subscriber that match, an entry of `matched_map`.
pub record Group : Type 0 where
  pub subscriber : IpEndPoint
  pub interests : List Interest

pub record Delivery : Type 0 where
  pub to : IpEndPoint
  pub msg : Publication

unfoldable pub add_match : Interest → List Group → List Group
add_match i [] = record { subscriber = i.subscriber; interests = i ∷ [] } ∷ []
add_match i (g ∷ gs) =
    let rest = add_match i gs in
    if less_sid i.subscriber g.subscriber
    then record { subscriber = i.subscriber; interests = i ∷ [] } ∷ g ∷ gs
    else if less_sid g.subscriber i.subscriber
    then g ∷ rest
    else record g { interests = g.interests ++ (i ∷ []) } ∷ gs

-- Whether a publication is sent for an interest that it matches. A null constraint is dereferenced.
unfoldable pub is_sent : Place → Bool → Publication → Interest → Option Bool
is_sent l pub_matches_left pmsg i =
    if not l.send_backpub && equals i.subscriber pmsg.creator
    then some false
    else if at_most i.death_time l.now
    then some false
    else elim (get_constraint i (pos l.hub_id)) [
      | none ↦ none
      | some c ↦ some (not ((get_route_directions l.own l.am_rightmost c).left && pub_matches_left))
    ]

-- The loop over the matches.
unfoldable pub group_matches :
    Place → Bool → Publication → List Interest → List Group → Option (List Group)
group_matches l left pmsg [] gs = some gs
group_matches l left pmsg (i ∷ is) gs = elim (is_sent l left pmsg i) [
  | none ↦ none
  | some b ↦ group_matches l left pmsg is (if b then add_match i gs else gs)
]

abbrev pub max_ℤ : ℤ → ℤ → ℤ
max_ℤ a b = if ltb_ℤ b a then a else b

-- `maxSubTTLLeft`
unfoldable pub max_left : TimeVal → List Interest → ℕ → ℕ
max_left now [] n = n
max_left now (i ∷ is) n = max_left now is (to_uint32 (max_ℤ (pos n) (sub_msec i.death_time now)))

-- A matched publication with a life time, for all hubs.
abbrev pub matched_copy : ℕ → Publication → Publication
matched_copy lifetime p = record p {
  header = record p.header { hub_id = 255 };
  event = record p.event { matched = true; lifetime = lifetime };
}

abbrev pub send_group : TimeVal → Publication → Group → Delivery
send_group now pmsg g =
    let left = max_left now g.interests 0 in
    record {
      to = g.subscriber;
      msg = matched_copy (if ltb pmsg.event.lifetime left then pmsg.event.lifetime else left) pmsg;
    }

-- `DeliverPubToSubscribers`
unfoldable pub deliver_pub_to_subscribers :
    Place → Bool → Publication → PubsubStore → Option (List Delivery)
deliver_pub_to_subscribers l left pmsg s =
    elim (group_matches l left pmsg (get_overlap_subs pmsg s) []) [
      | none ↦ none
      | some gs ↦ some (map (send_group l.now pmsg) gs)
    ]

pub record Answer : Type 0 where
  pub store : PubsubStore
  pub acks : List HeartBeat
  pub deliveries : List Delivery

-- `SendAck`, to the creator of the publication.
abbrev pub send_ack : Place → Publication → HeartBeat
send_ack l pmsg = record {
  header = record {
    type = 15;
    sender = l.address;
    hub_id = pmsg.header.hub_id;
    hop_count = 0;
    nonce = l.ack_nonce;
  };
  range = l.own;
}

abbrev pub keep_trigger : Place → Publication → PubsubStore → PubsubStore
keep_trigger l pmsg s =
    if l.enable_pubtriggers && is_store l.event_action
    then store_trigger
        (record pmsg {
          event = record pmsg.event { death_time = add_msec l.now pmsg.event.lifetime };
        })
        s
    else s

-- `HandlePubAtRendezvous`; `remote` is whether the publication has come from the network.
unfoldable pub handle_pub_at_rendezvous :
    Place → Bool → Bool → Publication → PubsubStore → Option Answer
handle_pub_at_rendezvous l remote left pmsg s = elim l.event_action [
  | ev_nuke ↦ some (record { store = s; acks = []; deliveries = [] })
  | _ ↦
      let acks = if remote && l.use_cache then send_ack l pmsg ∷ [] else [] in
      elim (if is_match l.event_action then deliver_pub_to_subscribers l left pmsg s else some []) [
        | none ↦ none
        | some ds ↦ some (record { store = keep_trigger l pmsg s; acks = acks; deliveries = ds })
      ]
]

-- What `TriggerPublications` sends for a publication that matches.
abbrev pub trigger : TimeVal → Interest → Publication → Delivery
trigger now i p = record {
  to = i.subscriber;
  msg = matched_copy (to_uint32 (max_ℤ (sub_msec p.event.death_time now) (pos 0))) p;
}

-- The stored publications, with the counts of those that match.
unfoldable pub count_triggers : Interest → List Publication → List Publication
count_triggers i [] = []
count_triggers i (p ∷ ps) =
    (if Interest.overlaps i p.event
      then record p {
        event = record p.event { trigger_count = (p.event.trigger_count + 1) % 4294967296 };
      }
      else p)
    ∷ count_triggers i ps

abbrev pub keep_interest : Place → Interest → PubsubStore → PubsubStore
keep_interest l i s =
    if is_stored l.interest_action
    then store_sub
        (if l.use_softsubs then record i { death_time = add_msec l.now i.lifetime } else i) s
    else s

-- `HandleSubAtRendezvous` of a subscription with an interest.
unfoldable pub handle_sub_at_rendezvous : Place → Subscription → PubsubStore → Answer
handle_sub_at_rendezvous l smsg s =
    let i = smsg.interest in
    let t = keep_interest l i s in
    if l.enable_pubtriggers && is_trigger l.interest_action
    then record {
      store = record t { triggers = count_triggers i t.triggers };
      acks = [];
      deliveries = map (trigger l.now i) (get_overlap_triggers i t);
    }
    else record { store = t; acks = []; deliveries = [] }
