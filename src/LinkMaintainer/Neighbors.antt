-- ===== src/LinkMaintainer/Neighbors.antt =====
-- mercury/LinkMaintainer.cpp: how a node keeps its successors and its predecessor. It asks its
-- successor for the predecessor and the successors that this one has, and notifies it of itself.
use distributed_games.Base.{Bool, not, ◌&&◌, ◌||◌, eqb_ℤ, if◌then◌else◌, none, some, [], ◌∷◌}
use distributed_games.Address.{IpEndPoint, equals, sid_none}
use distributed_games.Value.{is_between, is_between_right_inclusive}
use distributed_games.Constraint.{NodeRange, range_none}
use distributed_games.Message.Ring.{HeartBeat, Pred}
use distributed_games.Message.Successors.{SuccessorList}
use distributed_games.Peer.{Peer, successor}
use distributed_games.Peer
use distributed_games.Hub.Table.{update_peer}
use distributed_games.Hub.Member.{
  MemberHub, Outcome, running, fault, ◌>>=◌, peers_at, get_successor, get_predecessor,
  set_predecessor, set_successor, merge_successor, merge_successor_list, set_range,
}
use distributed_games.LinkMaintainer.{
  Env, time_now, Node, Handled, notify_successor, get_pred, get_succ_list, pred, succ_list,
  new_header,
}
use distributed_games.LinkMaintainer.Joining.{is_joined, other_infos}

abbrev pub quiet : Node → Handled
quiet n = record { node = n; sent = [] }

abbrev pub with_hub : MemberHub → Node → Node
with_hub h n = record n { hub = h }

-- `Peer::SetRange` of the peer with an address.
abbrev pub set_peer_range : IpEndPoint → NodeRange → MemberHub → MemberHub
set_peer_range a r h = record h {
  table = record { peers = update_peer a (Peer.set_range r) h.table.peers; lists = h.table.lists };
}

-- `DoSuccListMaintenance`
unfoldable pub do_succ_list_maintenance : Env → Node → Handled
do_succ_list_maintenance e n = elim (get_successor n.hub) [
  | none ↦ quiet n
  | some s ↦ if equals s.address n.hub.address then quiet n else record {
    node = n;
    sent =
        record { to = s.address; msg = get_pred (new_header e 6 n) }
        ∷ record { to = s.address; msg = get_succ_list (new_header e 8 n) }
        ∷ [];
  }
]

-- The answer of `HandleGetPred`; a joined node with a predecessor and no range reads a null pointer.
unfoldable pub make_pred : Env → Node → Outcome Pred
make_pred e n = elim (get_predecessor n.hub) [
  | none ↦ running (record {
    header = new_header e 7 n;
    pred = sid_none;
    predrange = range_none;
    currange = range_none;
  })
  | some p ↦ elim n.hub.range [
    | none ↦ fault
    | some r ↦
        running (record {
          header = new_header e 7 n;
          pred = p.address;
          predrange = p.range;
          currange = r;
        })
  ]
]

-- `HandleGetPred`
unfoldable pub handle_get_pred : Env → IpEndPoint → Node → Outcome Handled
handle_get_pred e from n = if not (is_joined n.hub.status) then running (quiet n) else do
  p ← make_pred e n
  running (record { node = n; sent = record { to = from; msg = pred p } ∷ [] })

-- `HandleGetSuccList`
unfoldable pub handle_get_succ_list : Env → IpEndPoint → Node → Outcome Handled
handle_get_succ_list e from n =
    if not (is_joined n.hub.status) then running (quiet n) else elim (get_predecessor n.hub) [
      | none ↦ running (quiet n)
      | some p ↦ if not (equals p.address from) then running (quiet n) else elim n.hub.range [
        | none ↦ fault
        | some r ↦ running (record {
          node = n;
          sent =
              record {
                to = from;
                msg = succ_list (record {
                  header = new_header e 9 n;
                  sil =
                      record { addr = n.hub.address; range = r }
                      ∷ other_infos n.hub.address
                          (peers_at (n.hub.table.lists successor) n.hub.table.peers);
                });
              }
              ∷ [];
        })
      ]
    ]

-- The notice that a node sends of its range.
unfoldable pub notify : Env → IpEndPoint → Node → Outcome Handled
notify e to n = elim n.hub.range [
  | none ↦ fault
  | some r ↦ running (record {
    node = n;
    sent =
        record { to = to; msg = notify_successor (record { header = new_header e 5 n; range = r }) }
        ∷ [];
  })
]

-- The successor has the node for its predecessor: the node's range is made to end where that of the
-- successor begins.
unfoldable pub meet_successor : Env → NodeRange → Node → Outcome Handled
meet_successor e succ_range n = elim n.hub.range [
  | none ↦ fault
  | some cur ↦
      let newmax = if eqb_ℤ succ_range.min e.absmin then e.absmax else succ_range.min in
      if eqb_ℤ cur.min newmax
      then running (quiet n)
      else running (quiet (with_hub (set_range (some (record cur { max = newmax })) n.hub).0 n))
]

-- The predecessor of the successor becomes a successor, and the first one is notified.
unfoldable pub adopt_successor : Env → Pred → Node → Outcome Handled
unfolding notify
adopt_successor e p n =
    let m = with_hub (merge_successor (time_now e) p.pred p.predrange n.hub) n in
    elim (get_successor m.hub) [ none ↦ fault | some t ↦ notify e t.address m ]

-- The successor has another predecessor, which may be the node's real successor.
unfoldable pub meet_stranger : Env → IpEndPoint → Pred → Node → Outcome Handled
unfolding notify adopt_successor
meet_stranger e from p n = elim n.hub.range [
  | none ↦ fault
  | some cur ↦ elim (get_successor n.hub) [
    | none ↦ fault
    | some s ↦
        if is_between_right_inclusive p.predrange.min cur.min s.range.min
        then adopt_successor e p n
        else notify e from n
  ]
]

-- `HandlePred`
unfoldable pub handle_pred : Env → IpEndPoint → Pred → Node → Outcome Handled
unfolding notify meet_successor meet_stranger
handle_pred e from p n = elim (get_successor n.hub) [
  | none ↦ running (quiet n)
  | some s ↦
      if not (equals s.address from)
      then running (quiet n)
      else if equals p.pred sid_none
      then notify e from n
      else let m = with_hub (set_peer_range s.address p.currange n.hub) n in
        if equals p.pred n.hub.address
        then meet_successor e p.currange m
        else meet_stranger e from p m
]

-- `HandleSuccList`, with its two ASSERTs.
unfoldable pub handle_succ_list : Env → IpEndPoint → SuccessorList → Node → Outcome Handled
handle_succ_list e from m n = elim (get_successor n.hub) [
  | none ↦ running (quiet n)
  | some s ↦ if not (equals s.address from) then running (quiet n) else elim m.sil [
    | [] ↦ fault
    | first ∷ rest ↦ if not (equals first.addr s.address) then fault else do
      h ← merge_successor_list (time_now e) e.successors_to_keep m.sil n.hub
      running (quiet (with_hub h n))
  ]
]

-- Whether a node is nearer before `me` than the predecessor is, by their ranges.
unfoldable pub is_closer_pred : NodeRange → NodeRange → NodeRange → Bool
is_closer_pred new cur me =
    eqb_ℤ new.max cur.max && is_between new.min cur.min me.min || is_between new.max cur.max me.max

-- The new predecessor, and the successor too if it is the same node.
unfoldable pub install_predecessor : Env → IpEndPoint → NodeRange → MemberHub → MemberHub
install_predecessor e from r h =
    let g = set_predecessor (time_now e) from r h in
    elim (get_successor g) [
      | none ↦ g
      | some s ↦ if equals s.address from then set_successor (time_now e) from r g else g
    ]

-- `HandleNotifySuccessor`
unfoldable pub handle_notify_successor : Env → IpEndPoint → HeartBeat → Node → Outcome Node
unfolding is_closer_pred install_predecessor
handle_notify_successor e from ns n =
    if not (is_joined n.hub.status) then running n else elim (get_predecessor n.hub) [
      | none ↦ running (with_hub (set_predecessor (time_now e) from ns.range n.hub) n)
      | some p ↦
          if equals p.address from
          then running (with_hub (set_peer_range p.address ns.range n.hub) n)
          else elim n.hub.range [
            | none ↦ fault
            | some own ↦
                if is_closer_pred ns.range p.range own
                then running (with_hub (install_predecessor e from ns.range n.hub) n)
                else running n
          ]
    ]
