-- ===== src/LinkMaintainer/Joining.antt =====
-- mercury/LinkMaintainer.cpp: the two sides of a join, and the timer that asks to join. The calls of
-- the application and the measures of load of the router are left out.
use distributed_games.TimeVal.{TimeVal, at_most, add_msec}
use distributed_games.Base.{
  Bool, true, false, not, ◌&&◌, if◌then◌else◌, Option, none, some, List, [], ◌∷◌, ◌++◌, pos,
}
use distributed_games.Value.{Value}
use distributed_games.Address.{IpEndPoint, equals}
use distributed_games.Constraint.{NodeRange}
use distributed_games.Message.Successors.{PeerInfo}
use distributed_games.Message.Join.{JoinRequest}
use distributed_games.Message.JoinResponse.{JoinResponse, construct_denied}
use distributed_games.Peer.{Peer, successor}
use distributed_games.Hub.Table.{less_sid}
use distributed_games.Hub.Member.{
  MemberHub, Outcome, running, fault, ◌>>=◌, Status, joined, peers_at, get_successor,
  get_predecessor, set_predecessor, set_successor, set_range,
}
use distributed_games.PubsubStore.{delete_where}
use distributed_games.PubsubRouter.Handover.{hand_over, interest_item, trigger_item}
use distributed_games.LinkMaintainer.{
  Env, time_now, Answered, Node, Sent, Handled, join_response, subscription_list, trigger_list,
  new_header, middle,
}

abbrev pub is_joined : Status → Bool
is_joined joined = true
is_joined _ = false

-- `IsRequestDuplicate`: entries that have expired are erased, and the others searched.
unfoldable pub is_answered : IpEndPoint → List Answered → Bool
is_answered from [] = false
is_answered from (r ∷ rs) = if equals r.joiner from then true else is_answered from rs

unfoldable pub forget_expired : TimeVal → List Answered → List Answered
forget_expired now rs = delete_where (λ r. at_most r.expiry now) rs

-- `insert` into the map, which leaves an entry for the same key as it is.
unfoldable pub note_answer : Answered → List Answered → List Answered
note_answer r [] = r ∷ []
note_answer r (q ∷ qs) =
    let rest = note_answer r qs in
    if less_sid r.joiner q.joiner
    then r ∷ q ∷ qs
    else if less_sid q.joiner r.joiner
    then q ∷ rest
    else q ∷ qs

-- The successors but for the node itself.
unfoldable pub other_infos : IpEndPoint → List Peer → List PeerInfo
other_infos own [] = []
other_infos own (p ∷ ps) =
    let rest = other_infos own ps in
    if equals p.address own then rest else record { addr = p.address; range = p.range } ∷ rest

-- The answer that assigns a range.
unfoldable pub make_response :
    Env → JoinRequest → Node → NodeRange → NodeRange → Bool → JoinResponse
make_response e jmsg n assigned newrange only = record {
  header = new_header e 4 n;
  e_error = 0;
  assigned_range = some assigned;
  succ_is_only_node = only;
  sil =
      record { addr = n.hub.address; range = newrange }
      ∷ other_infos n.hub.address (peers_at (n.hub.table.lists successor) n.hub.table.peers);
  is_lb_leavejoin = e.do_loadbal && jmsg.is_lb_leavejoin;
  load = if e.do_loadbal && jmsg.is_lb_leavejoin then e.half_load else 0;
}

-- The neighbour's range that `HandoverSubscriptions` and `HandoverTriggers` test.
unfoldable pub neighbor_range : IpEndPoint → MemberHub → Option NodeRange
neighbor_range to h = elim (get_predecessor h) [
  | none ↦ none
  | some p ↦
      if equals to p.address
      then some p.range
      else elim (get_successor h) [ none ↦ none | some s ↦ some s.range ]
]

abbrev pub unless_empty : {A : Type 0} → List A → Sent → List Sent
unless_empty [] m = []
unless_empty (x ∷ xs) m = m ∷ []

-- The calls of `HandoverSubscriptions` and `HandoverTriggers` for a joiner.
unfoldable pub hand_over_to : Env → IpEndPoint → Node → Outcome Handled
hand_over_to e to n = elim n.hub.range [
  | none ↦ fault
  | some own ↦ elim (neighbor_range to n.hub) [
    | none ↦ fault
    | some range ↦ elim (hand_over (interest_item e.hub_id) e.now own range n.store.subs) [
      | none ↦ fault
      | some subs ↦ elim (hand_over (trigger_item e.hub_id) e.now own range n.store.triggers) [
        | none ↦ fault
        | some trigs ↦ running (record {
          node = record n { store = record { subs = subs.kept; triggers = trigs.kept } };
          sent =
              unless_empty subs.sent
                (record { to = to; msg = subscription_list (new_header e 19 n) subs.sent })
              ++ unless_empty trigs.sent
                  (record { to = to; msg = trigger_list (new_header e 20 n) trigs.sent });
        })
      ]
    ]
  ]
]

-- The changes of the node's own hub once the response has left.
unfoldable pub admit : Env → IpEndPoint → NodeRange → NodeRange → Bool → MemberHub → MemberHub
admit e from assigned newrange only h =
    let g = (set_range (some newrange) h).0 in
    set_predecessor (time_now e) from assigned
      (if only then set_successor (time_now e) from assigned g else g)

abbrev pub set_load : Env → Node → Node
set_load e n = if e.do_loadbal then record n { load = e.half_load } else n

-- A range of the hub.
abbrev pub part : Env → Value → Value → NodeRange
part e lo hi = record { attr_index = pos e.hub_id; min = lo; max = hi }

abbrev pub assigned_part : Env → NodeRange → NodeRange
assigned_part e r = part e r.min (middle e.absmin e.absmax r)

abbrev pub kept_part : Env → NodeRange → NodeRange
kept_part e r = part e (middle e.absmin e.absmax r) r.max

-- The node with the later part of its range, before it hands over what it has stored; `succ` is its
-- successor.
unfoldable pub split_node : Env → IpEndPoint → NodeRange → Peer → Node → Node
unfolding admit
split_node e from r succ n = record n {
  hub = admit e from (assigned_part e r) (kept_part e r) (equals succ.address n.hub.address) n.hub;
  answered =
      note_answer (record { joiner = from; expiry = add_msec e.now e.tcp_failure_timeout })
        n.answered;
}

-- The split of a range for a node that joins. `delivered` is whether the response could be sent.
unfoldable pub split_for :
    Env → Bool → IpEndPoint → JoinRequest → NodeRange → Peer → Node → Outcome Handled
unfolding make_response split_node hand_over_to
split_for e delivered from jmsg r succ n =
    let only = equals succ.address n.hub.address in
    if not delivered then running (record { node = n; sent = [] }) else do
      done ← hand_over_to e from (split_node e from r succ n)
      running (record {
        node = set_load e done.node;
        sent =
            record {
              to = from;
              msg = join_response (make_response e jmsg n (assigned_part e r) (kept_part e r) only);
            }
            ∷ done.sent;
      })

-- `HandleJoinRequest`
unfoldable pub handle_join_request : Env → Bool → IpEndPoint → JoinRequest → Node → Outcome Handled
handle_join_request e delivered from jmsg node =
    let n = record node { answered = forget_expired e.now node.answered } in
    if is_answered from n.answered
    then running (record { node = n; sent = [] })
    else elim (get_successor n.hub) [
      | none ↦ running (record { node = n; sent = [] })
      | some succ ↦
          if not (is_joined n.hub.status)
          then running (record {
            node = n;
            sent =
                record { to = from; msg = join_response (construct_denied (new_header e 4 n) 1) }
                ∷ [];
          })
          else elim n.hub.range [ none ↦ fault | some r ↦ split_for e delivered from jmsg r succ n ]
    ]
