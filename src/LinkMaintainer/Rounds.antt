-- ===== src/LinkMaintainer/Rounds.antt =====
-- Rounds of questions between a node and its successor.
use distributed_games.Base.{
  ◌≡◌, refl, Bool, true, false, none, some, List, [], ◌∷◌, arith, Option-cases, inl, inr,
}
use distributed_games.Address.{IpEndPoint, equals, sid_none}
use distributed_games.Constraint.{NodeRange, range_none}
use distributed_games.Message.{Message}
use distributed_games.Message.Ring.{HeartBeat, Pred}
use distributed_games.Peer.{PeerType, Peer, predecessor}
use distributed_games.Hub.Table.{add}
use distributed_games.Hub.Table.Finding.{equals_self}
use distributed_games.Hub.Table.Consistent.{add-IsConsistent}
use distributed_games.Hub.Member.{
  MemberHub, running, joined, head_peer, get_successor, get_predecessor, set_predecessor,
  update_sorted, sort_if_ranged, sort_list, sort, insert_before, by_min, less_peer,
}
use distributed_games.Hub.Sound.{IsSound, sort_if_ranged-IsConsistent}
use distributed_games.LinkMaintainer.{
  Env, time_now, Node, Sent, notify_successor, get_pred, get_succ_list, pred, new_header,
}
use distributed_games.LinkMaintainer.Neighbors.{
  with_hub, do_succ_list_maintenance, make_pred, handle_get_pred, notify, handle_pred,
  handle_notify_successor,
}
use distributed_games.LinkMaintainer.Heads.{head_peer-first}

none_listed : (k : PeerType) (h : MemberHub) → h.table.lists k ≡ [] → head_peer k h ≡ none
unfolding head_peer
none_listed k h e = rw (e, head_peer) refl

sorted_one :
    (before : IpEndPoint → IpEndPoint → Bool) (a : IpEndPoint) (xs : List IpEndPoint)
    → xs ≡ a ∷ []
    → sort before xs ≡ a ∷ []
unfolding sort insert_before
sorted_one before a xs e = rw e refl

-- The first predecessor of a node that has none.
first_predecessor :
    (e : Env) (a : IpEndPoint) (r : NodeRange) (h : MemberHub)
    → IsSound h
    → h.table.lists predecessor ≡ []
    → (q : Peer) × (get_predecessor (set_predecessor (time_now e) a r h) ≡ some q) × (q.address ≡ a)
unfolding set_predecessor update_sorted sort_if_ranged sort_list
first_predecessor e a r h v none_yet =
    let t = add (time_now e) predecessor a r true h.table in
    let w = add-IsConsistent (time_now e) predecessor a r true h.table v in
    let one : t.lists predecessor ≡ a ∷ [] = unfold add in ground (arith, none_yet) in
    head_peer-first predecessor _ a []
      (sort_if_ranged-IsConsistent predecessor less_peer h.range t w)
      (elim (Option-cases h.range) [
        | inl n ↦ rw n one
        | inr (own, n) ↦ rw n (sorted_one (by_min (less_peer own.min) t) a _ one)
      ])

module _ (ea eb : Env) (a b : Node) (s : Peer) (range : NodeRange)
    (succ : get_successor a.hub ≡ some s) (at : s.address ≡ b.hub.address)
    (other : equals b.hub.address a.hub.address ≡ false) (ranged : a.hub.range ≡ some range)
    (ready : b.hub.status ≡ joined) (sound : IsSound b.hub)
    (lonely : b.hub.table.lists predecessor ≡ []) where
  -- A joined node without a predecessor gets one as soon as a node that has it for its successor
  -- does its next round of maintenance: that node asks for the predecessor, hears that there is
  -- none, and gives notice of itself and of its range, on which the other node takes it for its
  -- predecessor. The messages are delivered in this order, and nothing else happens between them.
  pub stabilizes :
      (ask : Message) × (rest : List Sent) × (p : Pred) × (ns : HeartBeat) × (b' : Node)
      × (q : Peer) × ((do_succ_list_maintenance ea a).sent
          ≡ record { to = b.hub.address; msg = get_pred ask } ∷ rest)
      × (handle_get_pred eb a.hub.address b
          ≡ running (record { node = b; sent = record { to = a.hub.address; msg = pred p } ∷ [] }))
      × (handle_pred ea b.hub.address p a
          ≡ running (record {
            node = a;
            sent = record { to = b.hub.address; msg = notify_successor ns } ∷ [];
          }))
      × (ns.range ≡ range)
      × (handle_notify_successor eb a.hub.address ns b ≡ running b')
      × (get_predecessor b'.hub ≡ some q)
      × (q.address ≡ a.hub.address)
  unfolding do_succ_list_maintenance handle_get_pred make_pred handle_pred notify
      handle_notify_successor
  stabilizes =
      let ns : HeartBeat = record { header = new_header ea 5 a; range = range } in
      let (q, found, named) = first_predecessor eb a.hub.address range b.hub sound lonely in
      let alone : get_predecessor b.hub ≡ none = none_listed predecessor b.hub lonely in
      (
        new_header ea 6 a,
        record { to = b.hub.address; msg = get_succ_list (new_header ea 8 a) } ∷ [],
        record {
          header = new_header eb 7 b;
          pred = sid_none;
          predrange = range_none;
          currange = range_none;
        },
        ns,
        with_hub (set_predecessor (time_now eb) a.hub.address range b.hub) b,
        q,
        ground (arith, succ, at, other),
        ground (arith, ready, alone),
        ground (arith, succ, at, ranged, equals_self b.hub.address, equals_self sid_none),
        refl,
        ground (arith, ready, alone),
        found,
        named,
      )
