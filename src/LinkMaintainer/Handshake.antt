-- ===== src/LinkMaintainer/Handshake.antt =====
-- The two sides of a join together.
use distributed_games.Base.{pos}
use distributed_games.Value.{Value}
use distributed_games.LinkMaintainer.{middle}
use distributed_games.Base.{
  ◌≡◌, refl, sym, ◌∙◌, ap, subst, Bool, true, false, if◌then◌else◌, none, some, List, ◌∷◌, arith,
}
use distributed_games.Address.{IpEndPoint, equals}
use distributed_games.Constraint.{NodeRange}
use distributed_games.Message.Join.{JoinRequest}
use distributed_games.Message.JoinResponse.{JoinResponse}
use distributed_games.Peer.{Peer, predecessor, successor}
use distributed_games.Hub.Table.{contains}
use distributed_games.Hub.Table.Consistent.{add-IsConsistent, clear-IsConsistent}
use distributed_games.Hub.Member.{
  MemberHub, running, ◌>>=◌, joined, unjoined, head_peer, get_successor, set_range, set_successor,
  set_predecessor, set_successor_list, update_sorted, peers_at,
}
use distributed_games.Hub.Sound.{IsSound}
use distributed_games.LinkMaintainer.{Env, time_now, Node, Handled, Sent, join_response}
use distributed_games.LinkMaintainer.Joining.{
  is_answered, forget_expired, other_infos, handle_join_request, make_response, split_node, admit,
  assigned_part, kept_part,
}
use distributed_games.LinkMaintainer.Neighbors.{quiet, with_hub, handle_notify_successor}
use distributed_games.LinkMaintainer.Arriving.{
  handle_join_response, take_range, notice_only, on_join_complete,
}
use distributed_games.LinkMaintainer.Heads.{set_successor_list-first, set_predecessor-listed}
use distributed_games.LinkMaintainer.Duplicates.{split_for-running, hand_over_to-keeps}

module _ (e : Env) (from : IpEndPoint) (r : NodeRange) (only : Bool) (h : MemberHub)
    (v : IsSound h) where
  admit_lem :
      let g = admit e from (assigned_part e r) (kept_part e r) only h in
      (g.range ≡ some (kept_part e r))
      × (g.status ≡ h.status)
      × (g.address ≡ h.address)
      × IsSound g
      × (contains from (g.table.lists predecessor) ≡ true)
  unfolding admit set_range
  admit_lem =
      elim only
        as (λ b.
          let g = admit e from (assigned_part e r) (kept_part e r) b h in
          (g.range ≡ some (kept_part e r))
          × (g.status ≡ h.status)
          × (g.address ≡ h.address)
          × IsSound g
          × (contains from (g.table.lists predecessor) ≡ true)) [
            | true ↦
                let f =
                  set_successor (time_now e) from (assigned_part e r)
                    (set_range (some (kept_part e r)) h).0 in
                let p = set_predecessor-listed (time_now e) from (assigned_part e r) f (
                  unfold set_successor update_sorted in
                  add-IsConsistent (time_now e) successor from (assigned_part e r) true _
                    (clear-IsConsistent successor h.table v)) in
                unfold set_predecessor set_successor update_sorted in (refl, refl, refl, p.0, p.1)
            | false ↦
                let f = (set_range (some (kept_part e r)) h).0 in
                let p = set_predecessor-listed (time_now e) from (assigned_part e r) f v in
                unfold set_predecessor update_sorted in (refl, refl, refl, p.0, p.1)
          ]

-- The notice to itself does nothing at a node that is not joined yet.
pub notice_lem :
    (e : Env) (only : Bool) (n : Node) (p : Peer)
    → n.hub.status ≡ unjoined
    → get_successor n.hub ≡ some p
    → notice_only e only n ≡ running n
unfolding notice_only handle_notify_successor
notice_lem e true n p u s = rw (s, notice_only) (rw (u, handle_notify_successor) refl)
notice_lem e false n p u s = refl

complete_lem :
    (n : Node) (p : Peer)
    → get_successor n.hub ≡ some p
    → on_join_complete n ≡ running (quiet (with_hub (record n.hub { status = joined }) n))
unfolding on_join_complete
complete_lem n p s = rw (s, on_join_complete) refl

-- A response to a node that is not joined and has no range.
take_range_lem :
    (e : Env) (msg : JoinResponse) (r : NodeRange) (n : Node) (p : Peer)
    → n.hub.status ≡ unjoined
    → get_successor
        (set_successor_list (time_now e) e.successors_to_keep msg.sil (set_range (some r) n.hub).0)
      ≡ some p
    → (d : Handled) × (take_range e msg r n ≡ running d)
      × (d.node.hub.range ≡ some r)
      × (d.node.hub.status ≡ joined)
      × (get_successor d.node.hub ≡ some p)
      × (d.node.hub.address ≡ n.hub.address)
unfolding take_range
take_range_lem e msg r n p u s =
    let g =
      set_successor_list (time_now e) e.successors_to_keep msg.sil (set_range (some r) n.hub).0 in
    let m : Node = record n { timer_cancelled = true; hub = g } in
    let l : Node = if e.do_loadbal then record m { load = msg.load } else m in
    let hub_l : l.hub ≡ g = ground arith in
    let status_g : g.status ≡ unjoined = unfold set_successor_list update_sorted set_range in u in
    let range_g : g.range ≡ some r = unfold set_successor_list update_sorted set_range in refl in
    let first = notice_lem e msg.succ_is_only_node m p status_g s in
    let last = complete_lem l p (ap get_successor hub_l ∙ s) in
    (
      quiet (with_hub (record l.hub { status = joined }) l),
      rw (first, ◌>>=◌) last,
      ap (λ (h : MemberHub). h.range) hub_l ∙ range_g,
      refl,
      unfold head_peer in ap get_successor hub_l ∙ s,
      ap (λ (h : MemberHub). h.address) hub_l
          ∙ (unfold set_successor_list update_sorted set_range in refl),
    )

-- Two neighbours after a join: the new node has the range up to the middle and has the other node
-- for its successor, which has the range from there on and the new node among its predecessors.
pub record AreNeighbors (e : Env) (r : NodeRange) (new old : MemberHub) : Type 0 where
  pub mid : Value
  pub mid_lem : mid ≡ middle e.absmin e.absmax r
  pub new_range : new.range ≡ some (record { attr_index = pos e.hub_id; min = r.min; max = mid })
  pub old_range : old.range ≡ some (record { attr_index = pos e.hub_id; min = mid; max = r.max })
  pub new_joined : new.status ≡ joined
  pub old_joined : old.status ≡ joined
  pub succ : (p : Peer) × (get_successor new ≡ some p) × (p.address ≡ old.address)
  pub predecessor_listed : contains new.address (old.table.lists predecessor) ≡ true

-- The answer of a joined node, and the hub that it then has.
answer_lem :
    (e : Env) (from : IpEndPoint) (jmsg : JoinRequest) (old : Node) (succ : Peer) (r : NodeRange)
    (d : Handled)
    → get_successor old.hub ≡ some succ
    → old.hub.status ≡ joined
    → old.hub.range ≡ some r
    → is_answered from (forget_expired e.now old.answered) ≡ false
    → handle_join_request e true from jmsg old ≡ running d
    → let n = record old { answered = forget_expired e.now old.answered } in
      let only = equals succ.address old.hub.address in
      (rest : List Sent) × (d.sent
        ≡ record {
          to = from;
          msg = join_response (make_response e jmsg n (assigned_part e r) (kept_part e r) only);
        }
          ∷ rest)
      × (d.node.hub ≡ admit e from (assigned_part e r) (kept_part e r) only old.hub)
unfolding handle_join_request split_node
answer_lem e from jmsg old succ r d has_succ joined_old has_range fresh answered =
    let n : Node = record old { answered = forget_expired e.now old.answered } in
    let (done, y, z) =
      split_for-running e from jmsg r succ n d
        (ground (arith, has_succ, joined_old, has_range, fresh, answered)) in
    let kept = (hand_over_to-keeps e from (split_node e from r succ n) done y).0 in
    (done.sent, ap (λ (x : Handled). x.sent) z, ground (arith, z, kept))

-- A response that assigns a range, at a node without one.
response_lem :
    (e : Env) (msg : JoinResponse) (r : NodeRange) (n : Node)
    → msg.e_error ≡ 0
    → n.hub.range ≡ none
    → msg.assigned_range ≡ some r
    → handle_join_response e msg n ≡ take_range e msg r n
unfolding handle_join_response
response_lem e msg r n ok no_range a = ground (arith, ok, no_range, a)

module _ (e e' : Env) (jmsg : JoinRequest) (new old : Node) (succ : Peer) (r : NodeRange)
    (d : Handled) (unjoined_new : new.hub.status ≡ unjoined) (no_range : new.hub.range ≡ none)
    (sound_new : IsSound new.hub) (other : equals old.hub.address new.hub.address ≡ false)
    (has_succ : get_successor old.hub ≡ some succ) (joined_old : old.hub.status ≡ joined)
    (has_range : old.hub.range ≡ some r) (sound_old : IsSound old.hub)
    (fresh : is_answered new.hub.address (forget_expired e.now old.answered) ≡ false)
    (answered : handle_join_request e true new.hub.address jmsg old ≡ running d) where
  -- A joined node that answers a join request sends a response at which the new node joins: the new
  -- node then has the range from the node's minimum to the middle and the node for its successor,
  -- and the node has the range from the middle to its maximum and the new node among its
  -- predecessors. The new node has no range yet, the two have different addresses, and their lists
  -- and maps agree.
  pub handshake :
      (resp : JoinResponse) × (rest : List Sent) × (joiner : Handled) × (d.sent
        ≡ record { to = new.hub.address; msg = join_response resp } ∷ rest)
      × (handle_join_response e' resp new ≡ running joiner)
      × AreNeighbors e r joiner.node.hub d.node.hub
  unfolding make_response
  handshake =
      let only = equals succ.address old.hub.address in
      let n : Node = record old { answered = forget_expired e.now old.answered } in
      let resp = make_response e jmsg n (assigned_part e r) (kept_part e r) only in
      let (rest, sent, hub_d) =
        answer_lem e new.hub.address jmsg old succ r d has_succ joined_old has_range fresh
          answered in
      let (range_d, status_d, address_d, sound_d, listed_d) =
        admit_lem e new.hub.address r only old.hub sound_old in
      let (p, found, at) =
        set_successor_list-first (time_now e') e'.successors_to_keep
          (record { addr = old.hub.address; range = kept_part e r })
          (other_infos old.hub.address
            (peers_at (old.hub.table.lists successor) old.hub.table.peers))
          (set_range (some (assigned_part e r)) new.hub).0 (unfold set_range in sound_new)
          (unfold set_range in other) in
      let (joiner, taken, range_j, status_j, succ_j, address_j) =
        take_range_lem e' resp (assigned_part e r) new p unjoined_new found in
      (
        resp,
        rest,
        joiner,
        sent,
        response_lem e' resp (assigned_part e r) new refl no_range refl ∙ taken,
        record {
          mid = middle e.absmin e.absmax r;
          mid_lem = refl;
          new_range = range_j;
          old_range = ap (λ (h : MemberHub). h.range) hub_d ∙ range_d;
          new_joined = status_j;
          old_joined = ap (λ (h : MemberHub). h.status) hub_d ∙ status_d ∙ joined_old;
          succ = (p, succ_j, at ∙ sym (ap (λ (h : MemberHub). h.address) hub_d ∙ address_d));
          predecessor_listed =
              subst (λ (a : IpEndPoint). contains a (d.node.hub.table.lists predecessor) ≡ true)
                (sym address_j)
                (ap (λ (h : MemberHub). contains new.hub.address (h.table.lists predecessor)) hub_d
                  ∙ listed_d);
        },
      )
