-- ===== src/Tests/Joining.antt =====
-- Nodes that join.
use distributed_games.Base.{ℕ, ◌≡◌, refl, true, false, pos, some, none, List, [], ◌∷◌, length}
use distributed_games.TimeVal.{time_none, before, at_most, add_msec}
use distributed_games.Address.{equals}
use distributed_games.Message.Join.{JoinRequest}
use distributed_games.Message.JoinResponse.{JoinResponse}
use distributed_games.Peer.{Peer, successor, new_peer, add_peer_type}
use distributed_games.Hub.Table.{
  find_peer, add, clear, remove_peers, register, insert_sid, update_peer,
}
use distributed_games.Hub.Member.{
  MemberHub, running, exited, fault, joined, unjoined, head_peer, get_successor, set_successor,
  update_sorted, set_predecessor, sort_if_ranged, sort_list, sort, insert_before, by_min, less_peer,
  set_range,
}
use distributed_games.Hub.Sound.{IsSound}
use distributed_games.Hub.Steps.{here, next, successor_set, Reach-IsSound, IsEmpty-IsSound}
use distributed_games.Base.{◌+ℤ◌, ◌-ℤ◌}
use distributed_games.Constraint.Vector.{find_by_attr}
use distributed_games.Constraint.{get_span, overlaps, overlaps_node_range}
use distributed_games.Event.{get_constraint_by_attr}
use distributed_games.Interest.{get_constraint}
use distributed_games.Hub.Member.{peers_at}
use distributed_games.Hub.Table.{less_sid}
use distributed_games.LinkMaintainer.{get_range_span, half}
use distributed_games.PubsubRouter.Handover.{hand_one}
use distributed_games.PubsubStore.{PubsubStore, delete_where}
use distributed_games.PubsubRouter.Handover.{hand_over}
use distributed_games.LinkMaintainer.{Env, Node, Sent, Handled, join_response, middle}
use distributed_games.LinkMaintainer.Joining.{
  is_answered, forget_expired, note_answer, neighbor_range, hand_over_to, admit, split_node,
  split_for, handle_join_request,
}
use distributed_games.LinkMaintainer.Neighbors.{quiet}
use distributed_games.LinkMaintainer.Arriving.{handle_join_response, new_join_timer}
use distributed_games.LinkMaintainer.Attempts.{keep_asking, keep_asking_lem}
use distributed_games.LinkMaintainer.Duplicates.{answered_once}
use distributed_games.LinkMaintainer.Handshake.{AreNeighbors, handshake}
use distributed_games.LinkMaintainer.Early.{with_only, only_notice_ignored}
use distributed_games.Tests.Samples.{node, span, header}
use distributed_games.Tests.Handover.{lasting, dated}
use distributed_games.Tests.Hops.{low, wrapped}
use distributed_games.Tests.Members.{alone}

-- Hub 1 with the ring from 0 to 1000, at some time after the epoch.
abbrev pub env_at : ℕ → Env
env_at t = record {
  hub_id = 1;
  absmin = pos 0;
  absmax = pos 1000;
  now = record { sec = 0; usec = t };
  tcp_failure_timeout = 100;
  successors_to_keep = 4;
  do_loadbal = false;
  half_load = 0;
  nonces = λ m. 7;
}

abbrev pub node_with : MemberHub → PubsubStore → Node
node_with h s = record { hub = h; store = s; answered = []; timer_cancelled = false; load = 0 }

abbrev pub empty : PubsubStore
empty = record { triggers = []; subs = [] }

abbrev pub stored : PubsubStore
stored = record { triggers = dated ∷ []; subs = lasting ∷ [] }

-- A joined node with one successor.
abbrev pub settled : Node
settled = node_with (set_successor time_none wrapped.address wrapped.range alone) stored

abbrev pub next_node : Peer
next_node = add_peer_type time_none successor (new_peer time_none wrapped.address wrapped.range)

pub next_found : get_successor settled.hub ≡ some next_node
unfolding head_peer set_successor update_sorted add clear remove_peers register insert_sid
    update_peer find_peer equals new_peer add_peer_type
next_found = refl

settled_joined : settled.hub.status ≡ joined
unfolding set_successor update_sorted
settled_joined = refl

pub settled_range : settled.hub.range ≡ some span
unfolding set_successor update_sorted
settled_range = refl

settled_IsSound : IsSound settled.hub
settled_IsSound =
    Reach-IsSound (IsEmpty-IsSound alone (refl, λ k. refl))
      (next here (successor_set alone time_none wrapped.address wrapped.range))

-- A node that is to join.
abbrev pub newcomer : Node
newcomer = node_with (record alone { address = low.address; status = unjoined; range = none }) empty

newcomer_IsSound : IsSound newcomer.hub
newcomer_IsSound = IsEmpty-IsSound newcomer.hub (refl, λ k. refl)

abbrev request : JoinRequest
request = record {
  header = record header { type = 3 };
  usedesired = false;
  desiredmax = pos 0;
  is_lb_leavejoin = false;
}

keep_asking_lem_example :
    ((l : List Sent) × (keep_asking 16 15 env_at (new_join_timer 2000 node false) newcomer
        ≡ running l)
      × (length l ≡ 16))
    × (keep_asking 18 15 env_at (new_join_timer 2000 node false) newcomer ≡ exited)
keep_asking_lem_example = keep_asking_lem 15 env_at 1 2000 node false newcomer

abbrev answer : Handled
answer = elim (handle_join_request (env_at 5) true low.address request settled) [
  | running d ↦ d
  | exited ↦ quiet settled
  | fault ↦ quiet settled
]

not_answered : is_answered low.address (forget_expired (env_at 5).now settled.answered) ≡ false
unfolding is_answered forget_expired delete_where
not_answered = refl

answer_running : handle_join_request (env_at 5) true low.address request settled ≡ running answer
unfolding handle_join_request split_for is_answered forget_expired delete_where head_peer
    set_successor update_sorted add clear find_peer update_peer register remove_peers insert_sid
    equals new_peer add_peer_type set_predecessor ◌+ℤ◌ ◌-ℤ◌ find_by_attr get_span overlaps
    overlaps_node_range get_constraint_by_attr by_min insert_before less_peer peers_at set_range
    sort sort_if_ranged sort_list less_sid get_constraint admit hand_over_to neighbor_range
    note_answer split_node get_range_span half middle hand_one hand_over before at_most add_msec
answer_running = refl

other_address : equals settled.hub.address newcomer.hub.address ≡ false
unfolding equals set_successor update_sorted
other_address = refl

handshake_example :
    (resp : JoinResponse) × (rest : List Sent) × (joiner : Handled) × (answer.sent
      ≡ record { to = low.address; msg = join_response resp } ∷ rest)
    × (handle_join_response (env_at 6) resp newcomer ≡ running joiner)
    × AreNeighbors (env_at 5) span joiner.node.hub answer.node.hub
handshake_example =
    handshake (env_at 5) (env_at 6) request newcomer settled next_node span answer refl refl
      newcomer_IsSound other_address next_found settled_joined settled_range settled_IsSound
      not_answered answer_running

still_noted : before (env_at 9).now (add_msec (env_at 5).now 100) ≡ true
unfolding before add_msec
still_noted = refl

answered_once_example :
    handle_join_request (env_at 9) true low.address request answer.node
    ≡ running (record {
      node = record answer.node { answered = forget_expired (env_at 9).now answer.node.answered };
      sent = [];
    })
answered_once_example =
    answered_once (env_at 5) (env_at 9) true low.address request request settled next_node span
      answer next_found settled_joined settled_range not_answered answer_running still_noted

abbrev pub response : JoinResponse
response = record {
  header = record header { type = 4 };
  e_error = 0;
  assigned_range = some span;
  succ_is_only_node = true;
  sil = record { addr = wrapped.address; range = wrapped.range } ∷ [];
  is_lb_leavejoin = false;
  load = 0;
}

only_notice_ignored_example :
    handle_join_response (env_at 6) (with_only true response) newcomer
    ≡ handle_join_response (env_at 6) (with_only false response) newcomer
only_notice_ignored_example = only_notice_ignored (env_at 6) newcomer refl response
