-- ===== src/Hub/Steps.antt =====
-- A member of a hub after any sequence of its operations.
use distributed_games.Base.{
  ℕ, ◌≡◌, subst, true, false, Option, none, some, List, [], arith, Option-cases, inl, inr,
}
use distributed_games.TimeVal.{TimeVal}
use distributed_games.Address.{IpEndPoint}
use distributed_games.Constraint.{NodeRange}
use distributed_games.Message.Successors.{PeerInfo}
use distributed_games.Message.Ring.{LivenessPing}
use distributed_games.Peer.{PeerType, successor, predecessor, long_nbr, rev_long_nbr, recvd_message}
use distributed_games.Hub.Table.{find_peer, contains}
use distributed_games.Hub.Table.Finding.{typed, is_kept}
use distributed_games.Hub.Table.Consistent.{
  IsConsistent, IsDistinct, add-IsConsistent, clear-IsConsistent,
}
use distributed_games.Hub.Member.Ordered.{sort_list-IsConsistent}
use distributed_games.Hub.Member.Merge.{add_successors-IsConsistent, merge_table-IsConsistent}
use distributed_games.Hub.Member.{
  MemberHub, running, update_sorted, clear_predecessor, add_long_neighbor, add_predecessor,
  add_reverse_long_neighbor, set_predecessor, set_successor, merge_successor, set_successor_list,
  merge_successor_list, set_range, less_peer, greater_peer,
}
use distributed_games.Hub.Liveness.{
  remove_peer, receive_pong, receive_ping, check_liveness, force_peer_refresh, prepare_leave,
  register_ping,
}
use distributed_games.Hub.Sound.{
  IsSound, LeavesSound, add_predecessor-IsSound, remove_peer-IsSound, receive_pong-IsSound,
  admit_predecessor-IsSound, answer_ping-IsSound, for_list-IsConsistent, recvd_message-Keeps,
  register_ping-Keeps, sort_if_ranged-IsConsistent,
}
use distributed_games.Hub.Sweeping.{Leaves, check_liveness-IsConsistent}

-- An operation of the hub, or the arrival of a message, or a timer, after which the process goes on.
pub data Step : MemberHub → MemberHub → Type 0 where
  ranged : (h : MemberHub) (r : Option NodeRange) → Step h (set_range r h).0
  cleared : (h : MemberHub) → Step h (clear_predecessor h)
  long_added :
      (h : MemberHub) (now : TimeVal) (a : IpEndPoint) (r : NodeRange)
      → Step h (add_long_neighbor now a r h)
  predecessor_added :
      (h : MemberHub) (now : TimeVal) (a : IpEndPoint) (r : NodeRange)
      → Step h (add_predecessor now a r h)
  reverse_added :
      (h : MemberHub) (now : TimeVal) (a : IpEndPoint) (r : NodeRange)
      → Step h (add_reverse_long_neighbor now a r h)
  predecessor_set :
      (h : MemberHub) (now : TimeVal) (a : IpEndPoint) (r : NodeRange)
      → Step h (set_predecessor now a r h)
  successor_set :
      (h : MemberHub) (now : TimeVal) (a : IpEndPoint) (r : NodeRange)
      → Step h (set_successor now a r h)
  successor_merged :
      (h : MemberHub) (now : TimeVal) (a : IpEndPoint) (r : NodeRange)
      → Step h (merge_successor now a r h)
  successors_set :
      (h : MemberHub) (now : TimeVal) (limit : ℕ) (is : List PeerInfo)
      → Step h (set_successor_list now limit is h)
  successors_merged :
      (h g : MemberHub) (now : TimeVal) (limit : ℕ) (is : List PeerInfo)
      → merge_successor_list now limit is h ≡ running g
      → Step h g
  removed : (h g : MemberHub) (a : IpEndPoint) → remove_peer a h ≡ running g → Step h g
  ponged :
      (h g : MemberHub) (now recv_time : TimeVal) (from : IpEndPoint) (r : NodeRange) (seqno : ℕ)
      → receive_pong now recv_time from r seqno h ≡ running g
      → Step h g
  pinged :
      (h : MemberHub) (now : TimeVal) (hub_id nonce : ℕ) (from : IpEndPoint) (ping : LivenessPing)
      → Step h (receive_ping now hub_id nonce from ping h).0
  checked :
      (h g : MemberHub) (timeout : ℕ) (now : TimeVal)
      → check_liveness timeout now h ≡ running g
      → Step h g
  refreshed : (h : MemberHub) (now : TimeVal) → Step h (force_peer_refresh now h)
  left : (h : MemberHub) → Step h (prepare_leave h).0

pub data Reach (h : MemberHub) : MemberHub → Type 0 where
  here : Reach h h
  next : {f g : MemberHub} → Reach h f → Step f g → Reach h g

set_range-IsSound : (h : MemberHub) (r : Option NodeRange) → IsSound h → IsSound (set_range r h).0
unfolding set_range
set_range-IsSound h none v = v
set_range-IsSound h (some r) v = v

force_peer_refresh-IsSound :
    (now : TimeVal) (h : MemberHub) → IsSound h → IsSound (force_peer_refresh now h)
unfolding force_peer_refresh
force_peer_refresh-IsSound now h v =
    let lists = h.table.lists in
    let heard = recvd_message-Keeps now in
    let pinged = register_ping-Keeps true successor now in
    let t1 = for_list-IsConsistent (lists successor) (recvd_message now) h.table heard v in
    let t2 = for_list-IsConsistent (lists long_nbr) (recvd_message now) _ heard t1 in
    let t3 =
      for_list-IsConsistent (lists predecessor) (register_ping true successor now) _ pinged t2 in
    for_list-IsConsistent (lists rev_long_nbr) (register_ping true successor now) _ pinged t3

pub merge_successor_list-IsSound :
    (now : TimeVal) (limit : ℕ) (is : List PeerInfo) (h : MemberHub)
    → IsSound h
    → LeavesSound (merge_successor_list now limit is h)
unfolding merge_successor_list update_sorted
merge_successor_list-IsSound now limit is h v = elim (Option-cases h.range) [
  | inl n ↦ rw (n, merge_successor_list) tt
  | inr (own, e) ↦
      rw (e, merge_successor_list)
        (sort_list-IsConsistent successor (greater_peer own.min) _
          (merge_table-IsConsistent now limit h.address is h.table v))
]

pub Step-IsSound : {h g : MemberHub} → Step h g → IsSound h → IsSound g
unfolding clear_predecessor add_long_neighbor add_reverse_long_neighbor set_predecessor
    set_successor merge_successor set_successor_list update_sorted receive_ping prepare_leave
Step-IsSound (ranged h r) v = set_range-IsSound h r v
Step-IsSound (cleared h) v = clear-IsConsistent predecessor h.table v
Step-IsSound (long_added h now a r) v = add-IsConsistent now long_nbr a r false h.table v
Step-IsSound (predecessor_added h now a r) v = add_predecessor-IsSound now a r h v
Step-IsSound (reverse_added h now a r) v = add-IsConsistent now rev_long_nbr a r false h.table v
Step-IsSound (predecessor_set h now a r) v =
    sort_if_ranged-IsConsistent predecessor less_peer h.range _
      (add-IsConsistent now predecessor a r true h.table v)
Step-IsSound (successor_set h now a r) v =
    add-IsConsistent now successor a r true _ (clear-IsConsistent successor h.table v)
Step-IsSound (successor_merged h now a r) v =
    sort_if_ranged-IsConsistent successor greater_peer h.range _
      (add-IsConsistent now successor a r false h.table v)
Step-IsSound (successors_set h now limit is) v =
    add_successors-IsConsistent now limit h.address is _ (clear-IsConsistent successor h.table v)
Step-IsSound (successors_merged h g now limit is e) v =
    subst LeavesSound e (merge_successor_list-IsSound now limit is h v)
Step-IsSound (removed h g a e) v = subst LeavesSound e (remove_peer-IsSound a h v)
Step-IsSound (ponged h g now recv_time from r seqno e) v =
    subst LeavesSound e (receive_pong-IsSound now recv_time from r seqno h v)
Step-IsSound (pinged h now hub_id nonce from ping) v =
    answer_ping-IsSound now hub_id nonce from ping _ (admit_predecessor-IsSound now from ping h v)
Step-IsSound (checked h g timeout now e) v =
    subst (Leaves IsConsistent) e (check_liveness-IsConsistent timeout now h v)
Step-IsSound (refreshed h now) v = force_peer_refresh-IsSound now h v
Step-IsSound (left h) v = clear-IsConsistent predecessor _ (
    clear-IsConsistent successor _
      (clear-IsConsistent rev_long_nbr _ (clear-IsConsistent long_nbr h.table v)))

pub Reach-IsSound : {h g : MemberHub} → IsSound h → Reach h g → IsSound g
Reach-IsSound v here = v
Reach-IsSound v (next r s) = Step-IsSound s (Reach-IsSound v r)

-- A hub that knows nobody.
abbrev pub IsEmpty : MemberHub → Type 0
IsEmpty h = (h.table.peers ≡ []) × ((k : PeerType) → h.table.lists k ≡ [])

pub IsEmpty-IsSound : (h : MemberHub) → IsEmpty h → IsSound h
unfolding find_peer
IsEmpty-IsSound h e = record {
  listed = λ k a. ground (arith, e.0, e.1 k);
  distinct = λ k. rw (e.1 k) tt;
  kept = λ a. ground (arith, e.0);
}

-- In a member of a hub that has known nobody at first, after any sequence of its operations and of
-- pings, pongs, checks and leaves, no list has an address twice, an address is in a list exactly if
-- the map has a peer of that type for it, and every peer in the map has some type.
pub Reach-roles :
    (start h : MemberHub)
    → IsEmpty start
    → Reach start h
    → (a : IpEndPoint)
    → ((k : PeerType)
        → IsDistinct (h.table.lists k)
          × (contains a (h.table.lists k) ≡ typed k (find_peer a h.table.peers)))
      × (is_kept (find_peer a h.table.peers) ≡ true)
Reach-roles start h e r a =
    let v = Reach-IsSound (IsEmpty-IsSound start e) r in
    (λ k. (v.distinct k, v.listed k a), v.kept a)
