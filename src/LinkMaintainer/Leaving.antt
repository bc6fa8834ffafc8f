-- ===== src/LinkMaintainer/Leaving.antt =====
-- mercury/LinkMaintainer.cpp: how a node leaves its place in the ring to join elsewhere, and what its
-- neighbours do about it. The load balancer's timers and the measures of load are left out.
use distributed_games.Base.{ℕ, ◌+◌, not, if◌then◌else◌, none, some, [], ◌∷◌, ◌++◌, map, pos}
use distributed_games.Address.{IpEndPoint}
use distributed_games.Constraint.{NodeRange}
use distributed_games.Message.Transfer.{LeaveNotification}
use distributed_games.Peer.{long_nbr}
use distributed_games.Hub.Table.{find_peer}
use distributed_games.Hub.Member.{
  Outcome, running, fault, ◌>>=◌, get_successor, get_predecessor, set_range,
}
use distributed_games.Hub.Liveness.{prepare_leave, remove_peer}
use distributed_games.PubsubStore.{clear}
use distributed_games.PubsubRouter.Handover.{
  get_matching, interest_item, trigger_item, handle_trigger_list, handle_subscription_list,
}
use distributed_games.LinkMaintainer.{Env, Node, Handled, leave, link_break, new_header, middle}
use distributed_games.LinkMaintainer.Neighbors.{quiet, with_hub}

-- `SendLeaveNotification`, with its ASSERT that the load is balanced. The predicates that collect take
-- an item if its constraint meets the range.
unfoldable pub send_leave_notification : Env → IpEndPoint → NodeRange → ℕ → Node → Outcome Handled
send_leave_notification e to range current_load n =
    elim (get_matching (interest_item e.hub_id) range n.store.subs) [
      | none ↦ fault
      | some subs ↦ elim (get_matching (trigger_item e.hub_id) range n.store.triggers) [
        | none ↦ fault
        | some trigs ↦
            if not e.do_loadbal
            then fault
            else running (record {
              node = n;
              sent =
                  record {
                    to = to;
                    msg = leave (record {
                      header = new_header e 28 n;
                      assigned_range = range;
                      addload = current_load;
                      triggers = trigs;
                      subscriptions = subs;
                    });
                  }
                  ∷ [];
            })
      ]
    ]

-- The notification that `LNContinuation` sends to the predecessor a while later, before the node
-- joins again.
pub record Pending : Type 0 where
  pub to : IpEndPoint
  pub range : NodeRange
  pub current_load : ℕ

pub record Left : Type 0 where
  pub handled : Handled
  pub pending : Pending

-- `PrepareLeave` with `ClearData`: the node that is left, and the link breaks.
unfoldable pub clear_out : Env → Node → Handled
clear_out e n =
    let (h, told) = prepare_leave n.hub in
    record {
      node = record n { hub = h; store = clear n.store };
      sent = map (λ a. record { to = a; msg = link_break (new_header e 12 n) }) told;
    }

-- `DoLeaveJoin`; a null range, predecessor or successor is dereferenced.
unfoldable pub do_leave_join : Env → Node → Outcome Left
do_leave_join e n = elim n.hub.range [
  | none ↦ fault
  | some r ↦ elim (get_predecessor n.hub) [
    | none ↦ fault
    | some p ↦ elim (get_successor n.hub) [
      | none ↦ fault
      | some s ↦
          let mid = middle e.absmin e.absmax r in
          let out = clear_out e n in
          send_leave_notification e s.address
            (record { attr_index = pos e.hub_id; min = mid; max = s.range.max }) e.half_load
            out.node
          >>= λ told. running (record {
            handled = record { node = told.node; sent = out.sent ++ told.sent };
            pending = record {
              to = p.address;
              range = record { attr_index = pos e.hub_id; min = p.range.min; max = mid };
              current_load = e.half_load;
            };
          })
    ]
  ]
]

-- `LNContinuation::Execute` up to the start of the join.
unfoldable pub end_leave : Env → Pending → Node → Outcome Handled
end_leave e p n = send_leave_notification e p.to p.range p.current_load n

-- `HandleLeaveNotification`; `load_sum` is the node's load with the load that the message adds.
unfoldable pub handle_leave_notification :
    Env → ℕ → IpEndPoint → LeaveNotification → Node → Outcome Handled
handle_leave_notification e load_sum from m n = elim (get_predecessor n.hub) [
  | none ↦ running (quiet n)
  | some p ↦ elim (get_successor n.hub) [
    | none ↦ running (quiet n)
    | some s ↦ elim (handle_subscription_list e.hub_id m.assigned_range m.subscriptions n.store) [
      | none ↦ fault
      | some st ↦ elim (handle_trigger_list e.hub_id e.now m.assigned_range m.triggers st) [
        | none ↦ fault
        | some su ↦ remove_peer from (set_range (some m.assigned_range) n.hub).0 >>= λ h. running (
            quiet
              (record n { hub = h; store = su; load = if e.do_loadbal then load_sum else n.load }))
      ]
    ]
  ]
]

-- `HandleLinkBreak`
unfoldable pub handle_link_break : IpEndPoint → Node → Outcome Handled
handle_link_break from n = elim (find_peer from n.hub.table.peers) [
  | none ↦ running (quiet n)
  | some p ↦
      remove_peer from
        (if p.types long_nbr then record n.hub { repairs = n.hub.repairs + 1 } else n.hub)
      >>= λ h. running (quiet (with_hub h n))
]
