-- ===== src/LinkMaintainer/Kept.antt =====
-- What the handlers that keep neighbours keep of a node.
pub mod Joins
pub mod Runs
use distributed_games.Base.{
  ℕ, ◌≡◌, refl, ap, Bool, true, false, not, ◌&&◌, ◌||◌, if◌then◌else◌, Option, none, some, List, [],
  ◌∷◌, arith, Bool-cases, Option-cases, inl, inr, subst, sym,
}
use distributed_games.Address.{IpEndPoint, equals, sid_none}
use distributed_games.Constraint.{NodeRange}
use distributed_games.Message.Ring.{HeartBeat, Pred}
use distributed_games.Message.Successors.{SuccessorList}
use distributed_games.Peer.{Peer}
use distributed_games.Hub.Member.{
  MemberHub, Outcome, running, exited, fault, ◌>>=◌, joined, set_range, set_predecessor,
  set_successor, merge_successor, merge_successor_list, get_successor, get_predecessor,
}
use distributed_games.LinkMaintainer.{Env, time_now, Node, Handled}
use distributed_games.Base.{eqb_ℤ}
use distributed_games.Value.{is_between_right_inclusive}
use distributed_games.LinkMaintainer.Joining.{is_joined}
use distributed_games.LinkMaintainer.Neighbors.{
  quiet, with_hub, handle_get_pred, make_pred, handle_get_succ_list, notify, meet_successor,
  adopt_successor, meet_stranger, handle_pred, handle_succ_list, install_predecessor,
  is_closer_pred, handle_notify_successor, set_peer_range,
}
use distributed_games.LinkMaintainer.Ready.{
  IsReady, Leaves, Leaves->>=, IsReadyNode, LeavesReady, went, crashed, ended, Leaves-if,
  Leaves-option, Leaves-list, Leaves-if, Leaves-option, set_predecessor-IsReady,
  set_successor-IsReady, merge_successor-IsReady, set_range-IsReady, set_peer_range-IsReady,
  merge_successor_list-IsReady,
}

module _ (e : Env) where
  pub handle_get_pred-IsReady :
      (from : IpEndPoint) (n : Node) → IsReadyNode n → LeavesReady (handle_get_pred e from n)
  unfolding handle_get_pred make_pred
  handle_get_pred-IsReady from n v =
      Leaves-if (not (is_joined n.hub.status)) _ _ (went _ v)
        (Leaves->>= (λ p. Unit {0}) (make_pred e n) _ (record { at = λ p x. tt }) (λ p x. went _ v))

  pub handle_get_succ_list-IsReady :
      (from : IpEndPoint) (n : Node) → IsReadyNode n → LeavesReady (handle_get_succ_list e from n)
  unfolding handle_get_succ_list
  handle_get_succ_list-IsReady from n v = Leaves-if (not (is_joined n.hub.status)) _ _ (went _ v) (
      Leaves-option (get_predecessor n.hub) _ _ (went _ v) (λ p x.
        Leaves-if (not (equals p.address from)) _ _ (went _ v)
          (Leaves-option n.hub.range _ _ crashed (λ r y. went _ v))))

  notify-IsReady : (to : IpEndPoint) (n : Node) → IsReadyNode n → LeavesReady (notify e to n)
  unfolding notify
  notify-IsReady to n v = Leaves-option n.hub.range _ _ crashed (λ r x. went _ v)

  meet_successor-IsReady :
      (r : NodeRange) (n : Node) → IsReadyNode n → LeavesReady (meet_successor e r n)
  unfolding meet_successor
  meet_successor-IsReady r n v = Leaves-option n.hub.range _ _ crashed (λ cur x.
      let newmax = if eqb_ℤ r.min e.absmin then e.absmax else r.min in
      Leaves-if (eqb_ℤ cur.min newmax) _ _ (went _ v)
        (went _ (set_range-IsReady (record cur { max = newmax }) n.hub v)))

  meet_stranger-IsReady :
      (from : IpEndPoint) (p : Pred) (n : Node)
      → IsReadyNode n
      → LeavesReady (meet_stranger e from p n)
  unfolding meet_stranger adopt_successor
  meet_stranger-IsReady from p n v =
      let h = merge_successor (time_now e) p.pred p.predrange n.hub in
      let w = merge_successor-IsReady (time_now e) p.pred p.predrange n.hub v in
      Leaves-option n.hub.range _ _ crashed (λ cur x.
        Leaves-option (get_successor n.hub) _ _ crashed (λ s y.
          Leaves-if (is_between_right_inclusive p.predrange.min cur.min s.range.min) _ _
            (Leaves-option (get_successor h) _ _ crashed
              (λ t z. notify-IsReady t.address (with_hub h n) w))
            (notify-IsReady from n v)))

  pub handle_pred-IsReady :
      (from : IpEndPoint) (p : Pred) (n : Node)
      → IsReadyNode n
      → LeavesReady (handle_pred e from p n)
  unfolding handle_pred
  handle_pred-IsReady from p n v = Leaves-option (get_successor n.hub) _ _ (went _ v) (λ s x.
      let m = with_hub (set_peer_range s.address p.currange n.hub) n in
      let w = set_peer_range-IsReady s.address p.currange n.hub v in
      Leaves-if (not (equals s.address from)) _ _ (went _ v) (
        Leaves-if (equals p.pred sid_none) _ _ (notify-IsReady from n v) (
          Leaves-if (equals p.pred n.hub.address) _ _ (meet_successor-IsReady p.currange m w)
            (meet_stranger-IsReady from p m w))))

  pub handle_succ_list-IsReady :
      (from : IpEndPoint) (m : SuccessorList) (n : Node)
      → IsReadyNode n
      → LeavesReady (handle_succ_list e from m n)
  unfolding handle_succ_list
  handle_succ_list-IsReady from m n v = Leaves-option (get_successor n.hub) _ _ (went _ v) (λ s x.
      Leaves-if (not (equals s.address from)) _ _ (went _ v) (
        Leaves-list m.sil _ _ crashed (λ first rest.
          Leaves-if (not (equals first.addr s.address)) _ _ crashed (
            Leaves->>= IsReady (merge_successor_list (time_now e) e.successors_to_keep m.sil n.hub)
              _ (merge_successor_list-IsReady (time_now e) e.successors_to_keep m.sil n.hub v)
              (λ h w. went _ w)))))

  install_predecessor-IsReady :
      (from : IpEndPoint) (r : NodeRange) (h : MemberHub)
      → IsReady h
      → IsReady (install_predecessor e from r h)
  unfolding install_predecessor
  install_predecessor-IsReady from r h v =
      let g = set_predecessor (time_now e) from r h in
      let w = set_predecessor-IsReady (time_now e) from r h v in
      elim (get_successor g)
        as (λ o. IsReady (elim o [
          | none ↦ g
          | some s ↦ if equals s.address from then set_successor (time_now e) from r g else g
        ])) [
          | none ↦ w
          | some s ↦
              elim (equals s.address from)
                as (λ b. IsReady (if b then set_successor (time_now e) from r g else g)) [
                  | true ↦ set_successor-IsReady (time_now e) from r g w
                  | false ↦ w
                ]
        ]

  pub handle_notify_successor-IsReady :
      (from : IpEndPoint) (ns : HeartBeat) (n : Node)
      → IsReadyNode n
      → Leaves IsReadyNode (handle_notify_successor e from ns n)
  unfolding handle_notify_successor
  handle_notify_successor-IsReady from ns n v =
      Leaves-if (not (is_joined n.hub.status)) _ _ (went _ v) (
        Leaves-option (get_predecessor n.hub) _ _
          (went _ (set_predecessor-IsReady (time_now e) from ns.range n.hub v))
          (λ p x.
            Leaves-if (equals p.address from) _ _
              (went _ (set_peer_range-IsReady p.address ns.range n.hub v))
              (Leaves-option n.hub.range _ _ crashed (λ own y.
                Leaves-if (is_closer_pred ns.range p.range own) _ _
                  (went _ (install_predecessor-IsReady from ns.range n.hub v)) (went _ v)))))
