-- ===== src/Tests/Rounds.antt =====
-- Nodes that keep their neighbours, run and leave.
use distributed_games.Base.{ℕ, ◌≡◌, refl, true, false, some, List, [], ◌∷◌}
use distributed_games.Address.{equals}
use distributed_games.Message.{Message}
use distributed_games.Message.Ring.{HeartBeat, Pred}
use distributed_games.Peer.{Peer, successor, predecessor, new_peer, add_peer_type}
use distributed_games.Hub.Table.{
  find_peer, add, clear, remove_peers, register, insert_sid, update_peer,
}
use distributed_games.Hub.Member.{
  running, exited, fault, head_peer, get_predecessor, set_successor, update_sorted, set_range,
}
use distributed_games.Hub.Steps.{IsEmpty-IsSound}
use distributed_games.LinkMaintainer.{
  Env, Node, Sent, Handled, join_response, notify_successor, get_pred, pred,
}
use distributed_games.LinkMaintainer.Neighbors.{
  quiet, do_succ_list_maintenance, handle_get_pred, handle_pred, handle_notify_successor,
}
use distributed_games.LinkMaintainer.Arriving.{handle_join_response}
use distributed_games.LinkMaintainer.Dispatch.{Around, handle, process_message}
use distributed_games.LinkMaintainer.Neighbors.{handle_get_succ_list, is_closer_pred}
use distributed_games.Base.{none}
use distributed_games.Constraint.{NodeRange}
use distributed_games.Message.Successors.{PeerInfo}
use distributed_games.LinkMaintainer.{new_header, succ_list}
use distributed_games.Hub.Member.{joined, set_predecessor, sort_list, sort}
use distributed_games.Hub.Table.{less_sid}
use distributed_games.LinkMaintainer.Ready.{IsReady}
use distributed_games.LinkMaintainer.Kept.Runs.{
  NodeRun, stopped, onward, received, NodeRun-IsReady, NodeRun-answers,
}
use distributed_games.LinkMaintainer.Rounds.{stabilizes}
use distributed_games.Tests.Samples.{node, span, header}
use distributed_games.Tests.Hops.{low, wrapped}
use distributed_games.Tests.Members.{alone}
use distributed_games.Hub.Member.{set_successor_list, add_successors}
use distributed_games.Tests.Joining.{
  env_at, node_with, empty, stored, settled, next_node, newcomer, response, next_found,
  settled_range,
}

-- The same with load balancing.
abbrev balancing_at : ℕ → Env
balancing_at t = record (env_at t) { do_loadbal = true }

-- The successor, without a predecessor.
abbrev lonely : Node
lonely = node_with (record alone { address = wrapped.address; range = some wrapped.range }) empty

apart : equals wrapped.address settled.hub.address ≡ false
unfolding equals set_successor update_sorted
apart = refl

named : next_node.address ≡ wrapped.address
unfolding add_peer_type new_peer
named = refl

stabilizes_example :
    (ask : Message) × (rest : List Sent) × (p : Pred) × (ns : HeartBeat) × (b' : Node) × (q : Peer)
    × ((do_succ_list_maintenance (env_at 5) settled).sent
        ≡ record { to = wrapped.address; msg = get_pred ask } ∷ rest)
    × (handle_get_pred (env_at 6) settled.hub.address lonely
        ≡ running (record {
          node = lonely;
          sent = record { to = settled.hub.address; msg = pred p } ∷ [];
        }))
    × (handle_pred (env_at 5) wrapped.address p settled
        ≡ running (record {
          node = settled;
          sent = record { to = wrapped.address; msg = notify_successor ns } ∷ [];
        }))
    × (ns.range ≡ span)
    × (handle_notify_successor (env_at 6) settled.hub.address ns lonely ≡ running b')
    × (get_predecessor b'.hub ≡ some q)
    × (q.address ≡ settled.hub.address)
stabilizes_example =
    stabilizes (env_at 5) (env_at 6) settled lonely next_node span next_found named apart
      settled_range refl (IsEmpty-IsSound lonely.hub (refl, λ k. refl)) refl

-- A node between two others.
abbrev between : Node
between =
    node_with
      (record alone {
        table = record {
          peers = low ∷ wrapped ∷ [];
          lists = λ k. elim k [
            | successor ↦ wrapped.address ∷ []
            | predecessor ↦ low.address ∷ []
            | _ ↦ []
          ];
        };
      })
      stored

abbrev around_it : Around
around_it = record { delivered = true; load_sum = 0 }

abbrev arrived : Handled
arrived = elim (process_message (env_at 6) around_it node (join_response response) newcomer) [
  | running d ↦ d
  | exited ↦ quiet newcomer
  | fault ↦ quiet newcomer
]

arrived_running :
    process_message (env_at 6) around_it node (join_response response) newcomer ≡ running arrived
unfolding process_message handle handle_join_response head_peer set_successor_list update_sorted
    add_successors equals set_range clear add find_peer update_peer register remove_peers insert_sid
    new_peer add_peer_type handle_notify_successor
arrived_running = refl

arrived_run : NodeRun newcomer arrived.node
arrived_run =
    onward stopped
      (received (env_at 6) around_it node (join_response response) newcomer arrived arrived_running)

NodeRun-IsReady_example : IsReady arrived.node.hub
NodeRun-IsReady_example = NodeRun-IsReady newcomer arrived.node (refl, λ k. refl) refl arrived_run

abbrev notice : HeartBeat
notice = record { header = record header { type = 5 }; range = low.range }

-- The newcomer after its predecessor has called.
abbrev called : Handled
called =
    elim (process_message (env_at 7) around_it low.address (notify_successor notice) arrived.node) [
      | running d ↦ d
      | exited ↦ quiet newcomer
      | fault ↦ quiet newcomer
    ]

abbrev caller : Peer
caller = elim (get_predecessor called.node.hub) [ none ↦ low | some q ↦ q ]

called_running :
    process_message (env_at 7) around_it low.address (notify_successor notice) arrived.node
    ≡ running called
unfolding process_message handle handle_join_response head_peer set_successor_list update_sorted
    add_successors equals set_range clear add find_peer update_peer register remove_peers insert_sid
    new_peer add_peer_type handle_notify_successor set_predecessor is_closer_pred
called_running = refl

called_run : NodeRun newcomer called.node
called_run = onward arrived_run (
    received (env_at 7) around_it low.address (notify_successor notice) arrived.node called
      called_running)

caller_found : get_predecessor called.node.hub ≡ some caller
unfolding process_message handle handle_join_response head_peer set_successor_list update_sorted
    add_successors equals set_range clear add find_peer update_peer register remove_peers insert_sid
    new_peer add_peer_type handle_notify_successor set_predecessor is_closer_pred sort_list sort
    less_sid
caller_found = refl

called_joined : called.node.hub.status ≡ joined
unfolding process_message handle handle_join_response head_peer set_successor_list update_sorted
    add_successors equals set_range clear add find_peer update_peer register remove_peers insert_sid
    new_peer add_peer_type handle_notify_successor set_predecessor is_closer_pred
called_joined = refl

NodeRun-answers_example :
    (r : NodeRange) × (rest : List PeerInfo) × (called.node.hub.range ≡ some r)
    × (handle_get_pred (env_at 9) node called.node
        ≡ running (record {
          node = called.node;
          sent =
              record {
                to = node;
                msg = pred (record {
                  header = new_header (env_at 9) 7 called.node;
                  pred = caller.address;
                  predrange = caller.range;
                  currange = r;
                });
              }
              ∷ [];
        }))
    × (handle_get_succ_list (env_at 9) caller.address called.node
        ≡ running (record {
          node = called.node;
          sent =
              record {
                to = caller.address;
                msg = succ_list (record {
                  header = new_header (env_at 9) 9 called.node;
                  sil = record { addr = called.node.hub.address; range = r } ∷ rest;
                });
              }
              ∷ [];
        }))
NodeRun-answers_example =
    NodeRun-answers newcomer called.node (env_at 9) node caller (refl, λ k. refl) refl called_run
      called_joined caller_found
