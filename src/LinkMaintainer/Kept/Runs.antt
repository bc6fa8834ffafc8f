-- ===== src/LinkMaintainer/Kept/Runs.antt =====
-- A node after any sequence of messages and timeouts of its link maintenance.
use distributed_games.Base.{Option-cases, inl, inr, ◌∷◌, []}
use distributed_games.Constraint.{NodeRange}
use distributed_games.Message.Successors.{PeerInfo}
use distributed_games.Peer.{Peer, successor}
use distributed_games.Base.{List}
use distributed_games.Hub.Member.{MemberHub, joined, peers_at}
use distributed_games.Hub.Table.Finding.{equals_self}
use distributed_games.LinkMaintainer.{new_header}
use distributed_games.LinkMaintainer.Joining.{other_infos}
use distributed_games.Base.{ℕ, ◌≡◌, true, not, ◌||◌, ◌==◌, some, arith}
use distributed_games.Address.{IpEndPoint}
use distributed_games.Hub.Member.{running, get_predecessor}
use distributed_games.Hub.Steps.{IsEmpty, IsEmpty-IsSound}
use distributed_games.LinkMaintainer.{
  Env, Node, Handled, Outgoing, join_request, join_response, notify_successor, get_pred, pred,
  get_succ_list, succ_list, leave, subscription_list, trigger_list, link_break,
}
use distributed_games.LinkMaintainer.Joining.{is_joined}
use distributed_games.LinkMaintainer.Neighbors.{
  make_pred, handle_get_pred, handle_get_succ_list, handle_notify_successor,
}
use distributed_games.LinkMaintainer.Arriving.{JoinTimer, Fired, on_join_timeout}
use distributed_games.LinkMaintainer.Leaving.{Left, do_leave_join}
use distributed_games.LinkMaintainer.Dispatch.{Around, base_of, handle, process_message}
use distributed_games.LinkMaintainer.Ready.{
  has_range, IsReady, IsReadyNode, LeavesReady, Leaves->>=, Leaves-if, went,
}
use distributed_games.LinkMaintainer.Kept.{
  handle_get_pred-IsReady, handle_get_succ_list-IsReady, handle_pred-IsReady,
  handle_succ_list-IsReady, handle_notify_successor-IsReady,
}
use distributed_games.LinkMaintainer.Kept.Joins.{
  handle_join_request-IsReady, handle_join_response-IsReady, on_join_timeout-IsReady,
  do_leave_join-IsReady, handle_leave_notification-IsReady, handle_link_break-IsReady,
}

handle-IsReady :
    (e : Env) (o : Around) (from : IpEndPoint) (m : Outgoing) (n : Node)
    → IsReadyNode n
    → LeavesReady (handle e o from m n)
unfolding handle
handle-IsReady e o from (join_request m) n v = handle_join_request-IsReady e o.delivered from m n v
handle-IsReady e o from (join_response m) n v = handle_join_response-IsReady e m n v
handle-IsReady e o from (notify_successor m) n v =
    Leaves->>= IsReadyNode (handle_notify_successor e from m n) _
      (handle_notify_successor-IsReady e from m n v) (λ k w. went _ w)
handle-IsReady e o from (get_pred m) n v = handle_get_pred-IsReady e from n v
handle-IsReady e o from (pred m) n v = handle_pred-IsReady e from m n v
handle-IsReady e o from (get_succ_list m) n v = handle_get_succ_list-IsReady e from n v
handle-IsReady e o from (succ_list m) n v = handle_succ_list-IsReady e from m n v
handle-IsReady e o from (leave m) n v = handle_leave_notification-IsReady e o.load_sum from m n v
handle-IsReady e o from (link_break m) n v = handle_link_break-IsReady from n v
handle-IsReady e o from (subscription_list m is) n v = went _ v
handle-IsReady e o from (trigger_list m ps) n v = went _ v

process_message-IsReady :
    (e : Env) (o : Around) (from : IpEndPoint) (m : Outgoing) (n : Node)
    → IsReadyNode n
    → LeavesReady (process_message e o from m n)
unfolding process_message
process_message-IsReady e o from m n v =
    Leaves-if (not ((base_of m).hub_id == e.hub_id)) _ _ (went _ v) (handle-IsReady e o from m n v)

-- A message, a timeout of the timer that asks to join, or the order to leave, after which the
-- process goes on. The clock, the settings and the load are as they may be each time.
pub data NodeStep : Node → Node → Type 0 where
  received :
      (e : Env) (o : Around) (from : IpEndPoint) (m : Outgoing) (n : Node) (d : Handled)
      → process_message e o from m n ≡ running d
      → NodeStep n d.node
  timed_out :
      (e : Env) (max_attempts : ℕ) (t : JoinTimer) (n : Node) (f : Fired)
      → on_join_timeout max_attempts e t n ≡ running f
      → NodeStep n f.handled.node
  departed :
      (e : Env) (n : Node) (l : Left) → do_leave_join e n ≡ running l → NodeStep n l.handled.node

pub data NodeRun (n : Node) : Node → Type 0 where
  stopped : NodeRun n n
  onward : {m k : Node} → NodeRun n m → NodeStep m k → NodeRun n k

NodeStep-IsReady : {n m : Node} → NodeStep n m → IsReadyNode n → IsReadyNode m
NodeStep-IsReady (received e o from m n d x) v = (process_message-IsReady e o from m n v).at d x
NodeStep-IsReady (timed_out e a t n f x) v = (on_join_timeout-IsReady e a t n v).at f x
NodeStep-IsReady (departed e n l x) v = (do_leave_join-IsReady e n v).at l x

run-IsReady : {n m : Node} → IsReadyNode n → NodeRun n m → IsReadyNode m
run-IsReady v stopped = v
run-IsReady v (onward r s) = NodeStep-IsReady s (run-IsReady v r)

-- After any run of a node that knows nobody at first and is not joined, or has a range, it has a
-- range whenever it is joined, and its lists and its map of peers agree.
pub NodeRun-IsReady :
    (start n : Node)
    → IsEmpty start.hub
    → (not (is_joined start.hub.status) || has_range start.hub) ≡ true
    → NodeRun start n
    → IsReady n.hub
NodeRun-IsReady start n e h r =
    run-IsReady (record { sound = IsEmpty-IsSound start.hub e; ranged = h }) r

range_found : (h : MemberHub) → has_range h ≡ true → (r : NodeRange) × (h.range ≡ some r)
range_found h x = elim (Option-cases h.range) [
  | inl n ↦ absurd (ground (arith, n, x))
  | inr found ↦ found
]

-- After any run of a node that knows nobody at first and is not joined, or has a range, a node that
-- is joined and has a predecessor answers a question for its predecessor, whoever asks, with the
-- predecessor's address and range and its own range, and its predecessor's question for its
-- successors with a list that begins with itself and its range. It sends nothing else, and stays as
-- it was.
pub NodeRun-answers :
    (start n : Node) (e : Env) (from : IpEndPoint) (q : Peer)
    → IsEmpty start.hub
    → (not (is_joined start.hub.status) || has_range start.hub) ≡ true
    → NodeRun start n
    → n.hub.status ≡ joined
    → get_predecessor n.hub ≡ some q
    → (r : NodeRange) × (rest : List PeerInfo) × (n.hub.range ≡ some r)
      × (handle_get_pred e from n
          ≡ running (record {
            node = n;
            sent =
                record {
                  to = from;
                  msg = pred (record {
                    header = new_header e 7 n;
                    pred = q.address;
                    predrange = q.range;
                    currange = r;
                  });
                }
                ∷ [];
          }))
      × (handle_get_succ_list e q.address n
          ≡ running (record {
            node = n;
            sent =
                record {
                  to = q.address;
                  msg = succ_list (record {
                    header = new_header e 9 n;
                    sil = record { addr = n.hub.address; range = r } ∷ rest;
                  });
                }
                ∷ [];
          }))
unfolding handle_get_pred make_pred handle_get_succ_list
NodeRun-answers start n e from q empty h run up has_pred =
    let ready = (NodeRun-IsReady start n empty h run).ranged in
    let (r, ranged) = range_found n.hub (ground (arith, ready, up)) in
    (
      r,
      other_infos n.hub.address (peers_at (n.hub.table.lists successor) n.hub.table.peers),
      ranged,
      ground (arith, up, has_pred, ranged),
      ground (arith, up, has_pred, ranged, equals_self q.address),
    )
