-- ===== src/LinkMaintainer/Kept/Joins.antt =====
-- What the handlers of joining and leaving keep of a node.
use distributed_games.Base.{
  ℕ, ◌≡◌, refl, ap, Bool, true, false, not, ◌==◌, if◌then◌else◌, some, arith, Option-cases, inl,
  inr, subst, sym, ◌∙◌, ltb, ◌+◌,
}
use distributed_games.Address.{IpEndPoint, equals}
use distributed_games.Constraint.{NodeRange}
use distributed_games.Message.Join.{JoinRequest}
use distributed_games.Message.JoinResponse.{JoinResponse}
use distributed_games.Message.Transfer.{LeaveNotification}
use distributed_games.Peer.{Peer, long_nbr}
use distributed_games.Hub.Table.{find_peer}
use distributed_games.Hub.Member.{
  MemberHub, set_range, set_successor, clear_predecessor, set_successor_list, update_sorted,
  get_successor, get_predecessor,
}
use distributed_games.Hub.Liveness.{prepare_leave, remove_peer}
use distributed_games.Hub.Steps.{Step-IsSound, cleared, left}
use distributed_games.PubsubRouter.Handover.{
  get_matching, interest_item, trigger_item, handle_subscription_list, handle_trigger_list,
}
use distributed_games.LinkMaintainer.{Env, time_now, Node, middle}
use distributed_games.LinkMaintainer.Joining.{
  is_joined, is_answered, forget_expired, hand_over_to, admit, split_node, split_for,
  handle_join_request, assigned_part, kept_part, set_load, part,
}
use distributed_games.LinkMaintainer.Duplicates.{hand_over_to-keeps}
use distributed_games.LinkMaintainer.Neighbors.{handle_notify_successor}
use distributed_games.LinkMaintainer.Arriving.{
  notice_only, on_join_complete, take_range, handle_join_response, JoinTimer, Fired,
  on_join_timeout,
}
use distributed_games.LinkMaintainer.Leaving.{
  send_leave_notification, clear_out, Left, do_leave_join, handle_leave_notification,
  handle_link_break,
}
use distributed_games.LinkMaintainer.Ready.{
  has_range, IsReady, Leaves, Leaves->>=, IsReadyNode, LeavesReady, went, crashed, ended, Leaves-if,
  Leaves-option, set_predecessor-IsReady, set_successor-IsReady, set_range-IsReady,
  set_successor_list-IsReady, remove_peer-IsReady,
}

module _ (e : Env) where
  admit-IsReady :
      (from : IpEndPoint) (assigned newrange : NodeRange) (only : Bool) (h : MemberHub)
      → IsReady h
      → IsReady (admit e from assigned newrange only h)
  unfolding admit
  admit-IsReady from assigned newrange only h v =
      let g = (set_range (some newrange) h).0 in
      let w = set_range-IsReady newrange h v in
      set_predecessor-IsReady (time_now e) from assigned _
        (elim only as (λ b. IsReady (if b then set_successor (time_now e) from assigned g else g)) [
          | true ↦ set_successor-IsReady (time_now e) from assigned g w
          | false ↦ w
        ])

  hand_over_to-IsReady :
      (to : IpEndPoint) (n : Node) → IsReadyNode n → LeavesReady (hand_over_to e to n)
  hand_over_to-IsReady to n v = record {
    at = λ d x. subst IsReady (sym (hand_over_to-keeps e to n d x).0) v;
  }

  set_load-hub : (n : Node) → (set_load e n).hub ≡ n.hub
  set_load-hub n = ground arith

  split_for-IsReady :
      (delivered : Bool) (from : IpEndPoint) (jmsg : JoinRequest) (r : NodeRange) (succ : Peer)
      (n : Node)
      → IsReadyNode n
      → LeavesReady (split_for e delivered from jmsg r succ n)
  unfolding split_for split_node
  split_for-IsReady delivered from jmsg r succ n v =
      let only = equals succ.address n.hub.address in
      let w = admit-IsReady from (assigned_part e r) (kept_part e r) only n.hub v in
      Leaves-if (not delivered) _ _ (went _ v) (
        Leaves->>= (λ d. IsReady d.node.hub) (hand_over_to e from (split_node e from r succ n)) _
          (hand_over_to-IsReady from (split_node e from r succ n) w)
          (λ d x. went _ (subst IsReady (sym (set_load-hub d.node)) x)))

  pub handle_join_request-IsReady :
      (delivered : Bool) (from : IpEndPoint) (jmsg : JoinRequest) (n : Node)
      → IsReadyNode n
      → LeavesReady (handle_join_request e delivered from jmsg n)
  unfolding handle_join_request
  handle_join_request-IsReady delivered from jmsg node v =
      let n = record node { answered = forget_expired e.now node.answered } in
      Leaves-if (is_answered from n.answered) _ _ (went _ v) (
        Leaves-option (get_successor n.hub) _ _ (went _ v) (λ succ x.
          Leaves-if (not (is_joined n.hub.status)) _ _ (went _ v) (
            Leaves-option n.hub.range _ _ crashed
              (λ r y. split_for-IsReady delivered from jmsg r succ n v))))

  -- A notice has no effect on a node that is not joined.
  notice_only-early :
      (only : Bool) (n : Node)
      → is_joined n.hub.status ≡ false
      → Leaves (λ m. m.hub ≡ n.hub) (notice_only e only n)
  unfolding notice_only handle_notify_successor
  notice_only-early only n u =
      Leaves-if only _ _
        (Leaves-option (get_successor n.hub) _ _ crashed (λ s x. ground (arith, u))) (went _ refl)

  on_join_complete-IsReady :
      (n : Node) → IsReadyNode n → has_range n.hub ≡ true → LeavesReady (on_join_complete n)
  unfolding on_join_complete
  on_join_complete-IsReady n v h =
      Leaves-option (get_successor n.hub) _ _ crashed
        (λ s x. went _ (record { sound = v.sound; ranged = ground (arith, h) }))

  take_range-IsReady :
      (msg : JoinResponse) (r : NodeRange) (n : Node)
      → IsReadyNode n
      → is_joined n.hub.status ≡ false
      → LeavesReady (take_range e msg r n)
  unfolding take_range
  take_range-IsReady msg r n v u =
      let f = (set_range (some r) n.hub).0 in
      let g = set_successor_list (time_now e) e.successors_to_keep msg.sil f in
      let w =
        set_successor_list-IsReady (time_now e) e.successors_to_keep msg.sil f
          (set_range-IsReady r n.hub v) in
      let early : is_joined g.status ≡ false =
        unfold set_successor_list update_sorted set_range in u in
      let ranged : has_range g ≡ true = unfold set_successor_list update_sorted set_range in refl in
      let start : Node = record n { timer_cancelled = true; hub = g } in
      Leaves->>= (λ (m : Node). m.hub ≡ g) (notice_only e msg.succ_is_only_node start) _
        (notice_only-early msg.succ_is_only_node start early)
        (λ m x.
          let l : Node = if e.do_loadbal then record m { load = msg.load } else m in
          let y : l.hub ≡ g = ground (arith, x) in
          on_join_complete-IsReady l (subst IsReady (sym y) w) (ap has_range y ∙ ranged))

  pub handle_join_response-IsReady :
      (msg : JoinResponse) (n : Node) → IsReadyNode n → LeavesReady (handle_join_response e msg n)
  unfolding handle_join_response
  handle_join_response-IsReady msg n v =
      Leaves-if (msg.e_error == 1) _ _ (went _ (record { sound = v.sound; ranged = refl })) (
        Leaves-if (msg.e_error == 0) _ _
          (elim (Option-cases n.hub.range) [
            | inr (r, x) ↦ rw x (went _ v)
            | inl x ↦ rw x (
                Leaves-option msg.assigned_range _ _ crashed
                  (λ r y. take_range-IsReady msg r n v (ground (arith, x, v.ranged))))
          ])
          (went _ v))

  pub clear_predecessor-IsReady : (h : MemberHub) → IsReady h → IsReady (clear_predecessor h)
  clear_predecessor-IsReady h v = record {
    sound = Step-IsSound (cleared h) v.sound;
    ranged = unfold clear_predecessor in v.ranged;
  }

  pub on_join_timeout-IsReady :
      (max_attempts : ℕ) (t : JoinTimer) (n : Node)
      → IsReadyNode n
      → Leaves (λ (f : Fired). IsReady f.handled.node.hub) (on_join_timeout max_attempts e t n)
  unfolding on_join_timeout
  on_join_timeout-IsReady max_attempts t n v =
      Leaves-if (ltb max_attempts t.n_timeouts) _ _ ended
        (went _ (clear_predecessor-IsReady n.hub v))

  send_leave_notification-IsReady :
      (to : IpEndPoint) (r : NodeRange) (load : ℕ) (n : Node)
      → IsReadyNode n
      → LeavesReady (send_leave_notification e to r load n)
  unfolding send_leave_notification
  send_leave_notification-IsReady to r load n v =
      Leaves-option (get_matching (interest_item e.hub_id) r n.store.subs) _ _ crashed (λ subs x.
        Leaves-option (get_matching (trigger_item e.hub_id) r n.store.triggers) _ _ crashed
          (λ trigs y. Leaves-if (not e.do_loadbal) _ _ crashed (went _ v)))

  clear_out-IsReady : (n : Node) → IsReadyNode n → IsReady (clear_out e n).node.hub
  unfolding clear_out
  clear_out-IsReady n v = record {
    sound = Step-IsSound (left n.hub) v.sound;
    ranged = unfold prepare_leave in refl;
  }

  pub do_leave_join-IsReady :
      (n : Node)
      → IsReadyNode n
      → Leaves (λ (l : Left). IsReady l.handled.node.hub) (do_leave_join e n)
  unfolding do_leave_join
  do_leave_join-IsReady n v = Leaves-option n.hub.range _ _ crashed (λ r x.
      Leaves-option (get_predecessor n.hub) _ _ crashed (λ p y.
        Leaves-option (get_successor n.hub) _ _ crashed (λ s z.
          let mid = middle e.absmin e.absmax r in
          let rs : NodeRange = part e mid s.range.max in
          let out = (clear_out e n).node in
          Leaves->>= (λ d. IsReady d.node.hub)
            (send_leave_notification e s.address rs e.half_load out) _
            (send_leave_notification-IsReady s.address rs e.half_load out (clear_out-IsReady n v))
            (λ told w. went _ w))))

  pub handle_leave_notification-IsReady :
      (load_sum : ℕ) (from : IpEndPoint) (m : LeaveNotification) (n : Node)
      → IsReadyNode n
      → LeavesReady (handle_leave_notification e load_sum from m n)
  unfolding handle_leave_notification
  handle_leave_notification-IsReady load_sum from m n v =
      let g = (set_range (some m.assigned_range) n.hub).0 in
      let w = set_range-IsReady m.assigned_range n.hub v in
      Leaves-option (get_predecessor n.hub) _ _ (went _ v) (λ p x.
        Leaves-option (get_successor n.hub) _ _ (went _ v) (λ s y.
          Leaves-option (handle_subscription_list e.hub_id m.assigned_range m.subscriptions n.store)
            _ _ crashed
            (λ st z.
              Leaves-option (handle_trigger_list e.hub_id e.now m.assigned_range m.triggers st) _ _
                crashed
                (λ su u.
                  Leaves->>= IsReady (remove_peer from g) _ (remove_peer-IsReady from g w)
                    (λ h k. went _ k)))))

pub handle_link_break-IsReady :
    (from : IpEndPoint) (n : Node) → IsReadyNode n → LeavesReady (handle_link_break from n)
unfolding handle_link_break
handle_link_break-IsReady from n v =
    Leaves-option (find_peer from n.hub.table.peers) _ _ (went _ v) (λ p x.
      let g : MemberHub =
        if p.types long_nbr then record n.hub { repairs = n.hub.repairs + 1 } else n.hub in
      let w : IsReady g =
        elim (p.types long_nbr)
          as (λ b. IsReady (if b then record n.hub { repairs = n.hub.repairs + 1 } else n.hub)) [
            | true ↦ record { sound = v.sound; ranged = v.ranged }
            | false ↦ v
          ] in
      Leaves->>= IsReady (remove_peer from g) _ (remove_peer-IsReady from g w) (λ h k. went _ k))
