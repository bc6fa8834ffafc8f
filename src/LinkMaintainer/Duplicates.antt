-- ===== src/LinkMaintainer/Duplicates.antt =====
-- A join request that is repeated.
use distributed_games.TimeVal.{TimeVal, before, add_msec, before-at_most}
use distributed_games.Base.{
  ◌≡◌, refl, Bool, true, false, some, List, [], ◌∷◌, arith, Option-cases, inl, inr,
}
use distributed_games.Address.{IpEndPoint, equals}
use distributed_games.Constraint.{NodeRange}
use distributed_games.Message.Join.{JoinRequest}
use distributed_games.Peer.{Peer}
use distributed_games.Hub.Table.{less_sid}
use distributed_games.Hub.Table.Finding.{equals_self}
use distributed_games.Hub.Member.{>>=-running, running, joined, get_successor}
use distributed_games.PubsubStore.{delete_where}
use distributed_games.PubsubRouter.Handover.{hand_over, interest_item, trigger_item}
use distributed_games.LinkMaintainer.{Env, Answered, Node, Handled, join_response}
use distributed_games.LinkMaintainer.Joining.{
  is_answered, forget_expired, note_answer, hand_over_to, split_for, handle_join_request,
  neighbor_range, split_node, set_load, make_response, assigned_part, kept_part,
}

-- The handover changes the store only.
pub hand_over_to-keeps :
    (e : Env) (to : IpEndPoint) (n : Node) (d : Handled)
    → hand_over_to e to n ≡ running d
    → (d.node.hub ≡ n.hub) × (d.node.answered ≡ n.answered)
unfolding hand_over_to
hand_over_to-keeps e to n d h = elim (Option-cases n.hub.range) [
  | inl x ↦ absurd (ground (arith, x, h))
  | inr (own, x) ↦ elim (Option-cases (neighbor_range to n.hub)) [
    | inl y ↦ absurd (ground (arith, x, y, h))
    | inr (range, y) ↦
        elim (Option-cases (hand_over (interest_item e.hub_id) e.now own range n.store.subs)) [
          | inl z ↦ absurd (ground (arith, x, y, z, h))
          | inr (subs, z) ↦
              elim (Option-cases
                (hand_over (trigger_item e.hub_id) e.now own range n.store.triggers)) [
                  | inl w ↦ absurd (ground (arith, x, y, z, w, h))
                  | inr (trigs, w) ↦ (ground (arith, x, y, z, w, h), ground (arith, x, y, z, w, h))
                ]
        ]
  ]
]

-- What an answer to a join request that was delivered consists of.
pub split_for-running :
    (e : Env) (from : IpEndPoint) (jmsg : JoinRequest) (r : NodeRange) (succ : Peer) (n : Node)
    (d : Handled)
    → split_for e true from jmsg r succ n ≡ running d
    → (done : Handled) × (hand_over_to e from (split_node e from r succ n) ≡ running done)
      × (d ≡ record {
        node = set_load e done.node;
        sent =
            record {
              to = from;
              msg = join_response (
                  make_response e jmsg n
                    (assigned_part e r)
                    (kept_part e r)
                    (equals succ.address n.hub.address));
            }
            ∷ done.sent;
      })
unfolding split_for
split_for-running e from jmsg r succ n d h =
    let (done, x, y) = >>=-running (hand_over_to e from (split_node e from r succ n)) _ h in
    (done, x, ground (arith, y))

not_before : (a b : IpEndPoint) → less_sid a b ≡ false → less_sid b a ≡ false → equals b a ≡ true
unfolding less_sid equals
not_before a b h k = ground arith

is_answered-note_answer :
    (now : TimeVal) (r : Answered) (rs : List Answered)
    → before now r.expiry ≡ true
    → is_answered r.joiner rs ≡ false
    → is_answered r.joiner (forget_expired now (note_answer r rs)) ≡ true
unfolding is_answered forget_expired delete_where note_answer
is_answered-note_answer now r [] h fresh =
    ground (arith, equals_self r.joiner, before-at_most now r.expiry h)
is_answered-note_answer now r (q ∷ qs) h fresh = ground (
  arith,
  equals_self r.joiner,
  before-at_most now r.expiry h,
  not_before r.joiner q.joiner,
  is_answered-note_answer now r qs h,
)

-- A node that has answered a join request does not split its range again for the same node before
-- the time of the answer has run out: it forgets answers that have expired, and that is all.
pub answered_once :
    (e later : Env) (delivered : Bool) (from : IpEndPoint) (first second : JoinRequest) (n : Node)
    (succ : Peer) (r : NodeRange) (d : Handled)
    → get_successor n.hub ≡ some succ
    → n.hub.status ≡ joined
    → n.hub.range ≡ some r
    → is_answered from (forget_expired e.now n.answered) ≡ false
    → handle_join_request e true from first n ≡ running d
    → before later.now (add_msec e.now e.tcp_failure_timeout) ≡ true
    → handle_join_request later delivered from second d.node
      ≡ running (record {
        node = record d.node { answered = forget_expired later.now d.node.answered };
        sent = [];
      })
unfolding handle_join_request split_node
answered_once e later delivered from first second node succ r d s j x fresh h soon =
    let n = record node { answered = forget_expired e.now node.answered } in
    let (done, y, z) =
      split_for-running e from first r succ n d (ground (arith, s, j, x, fresh, h)) in
    let kept = (hand_over_to-keeps e from (split_node e from r succ n) done y).1 in
    let answer : Answered = record {
      joiner = from;
      expiry = add_msec e.now e.tcp_failure_timeout;
    } in
    let noted : d.node.answered ≡ note_answer answer n.answered = ground (arith, z, kept) in
    let hit : is_answered from (forget_expired later.now d.node.answered) ≡ true =
      rw noted (is_answered-note_answer later.now answer n.answered soon fresh) in
    rw hit refl
