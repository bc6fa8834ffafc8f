-- ===== src/Tests/Members.antt =====
-- A member of a hub and its peers.
use distributed_games.Base.{
  ◌≡◌, refl, true, false, ◌||◌, pos, some, List, [], ◌∷◌, ltb, arith, ◌+ℤ◌,
}
use distributed_games.Value.Ring.{ring_size, clockwise}
use distributed_games.TimeVal.{TimeVal, time_none, sub_msec}
use distributed_games.Address.{IpEndPoint, equals}
use distributed_games.Message.Successors.{PeerInfo}
use distributed_games.Peer.{
  PeerType, Peer, same_type, successor, predecessor, long_nbr, rev_long_nbr, lost_pongs, lost_pings,
  remove_peer_type, new_peer, add_peer_type,
}
use distributed_games.Hub.{update_sorted_peer_list}
use distributed_games.Hub.Table.{
  Table, find_peer, contains, remove, erase_first, update_peer, erase_peer, add, clear,
  remove_peers, register, insert_sid, less_sid,
}
use distributed_games.Hub
use distributed_games.Hub.Table.Finding.{typed, is_kept}
use distributed_games.Hub.Table.Consistent.{IsDistinct, IsConsistent}
use distributed_games.Hub.Member.{
  MemberHub, joined, running, less_peer, greater_peer, add_long_neighbor, new_succs, head_peer,
  set_successor, update_sorted, merge_table, get_successor,
}
use distributed_games.Hub.Member.Ordered.{greater_peer-clockwise}
use distributed_games.Hub.Member.Merge.{contains-merge_table}
use distributed_games.Hub.Liveness.{
  sweep, sweep_peer, sweep_forward, sweep_predecessor, sweep_reverse, sweep_role, settle,
  dead_reverse, on_peer_death, remove_if, remove_from_lists, check_liveness, force_peer_refresh,
  remove_peer, dead_forward, dead_predecessor, remove_forward,
}
use distributed_games.Hub.Alive.{IsAlive, lost_in, check_liveness-IsAlive}
use distributed_games.Hub.Repairs.{force_peer_refresh-lost_in, remove_peer-repairs}
use distributed_games.Hub.Sorted.{IsAscending, begins, update_sorted_peer_list-IsAscending}
use distributed_games.Hub.Steps.{
  here, next, long_added, successor_set, Reach-IsSound, Reach-roles, IsEmpty-IsSound,
}
use distributed_games.Tests.Samples.{node, span}
use distributed_games.Tests.Hops.{low, wrapped}

abbrev pub alone : MemberHub
alone = record {
  address = node;
  status = joined;
  range = some span;
  table = record { peers = []; lists = λ k. [] };
  sorted = [];
  repairs = 0;
}

abbrev linked : MemberHub
linked = add_long_neighbor time_none low.address low.range alone

Reach-roles_example :
    ((k : PeerType)
      → IsDistinct (linked.table.lists k)
        × (contains low.address (linked.table.lists k)
            ≡ typed k (find_peer low.address linked.table.peers)))
    × (is_kept (find_peer low.address linked.table.peers) ≡ true)
Reach-roles_example =
    Reach-roles alone linked (refl, λ k. refl)
      (next here (long_added alone time_none low.address low.range)) low.address

alone_IsConsistent : IsConsistent alone.table
alone_IsConsistent = IsEmpty-IsSound alone (refl, λ k. refl)

abbrev infos : List PeerInfo
infos = record { addr = low.address; range = low.range } ∷ []

contains-merge_table_example :
    contains low.address ((merge_table time_none 10 node infos alone.table).lists successor)
    ≡ contains low.address (new_succs 10 node infos [])
contains-merge_table_example =
    contains-merge_table time_none 10 node infos alone.table alone_IsConsistent low.address

-- A peer that is a successor and a predecessor, and was heard of at the epoch.
abbrev both : Peer
both = record low { types = λ k. same_type successor k || same_type predecessor k }

abbrev listed : Table
listed = record {
  peers = both ∷ wrapped ∷ [];
  lists = λ k. elim k [
    | successor ↦ low.address ∷ wrapped.address ∷ []
    | predecessor ↦ low.address ∷ []
    | _ ↦ []
  ];
}

within :
    (b : IpEndPoint)
    → contains b (low.address ∷ wrapped.address ∷ []) ≡ true
    → contains b (
        new_succs 1 node
          (record { addr = low.address; range = low.range }
            ∷ record { addr = wrapped.address; range = wrapped.range }
            ∷ [])
          [])
      ≡ true
unfolding new_succs equals
within b h = h

abbrev crowded : MemberHub
crowded = record alone { table = listed }

abbrev late : TimeVal
late = record { sec = 1000; usec = 0 }

both_found : find_peer low.address listed.peers ≡ some both
unfolding find_peer equals
both_found = refl

both_dead : (dead_forward 45000 late both ≡ true) × (dead_predecessor 45000 late both ≡ true)
unfolding dead_forward dead_predecessor lost_pongs lost_pings sub_msec ◌+ℤ◌
both_dead = (refl, refl)

other_address : equals low.address node ≡ false
unfolding equals
other_address = refl

-- The other successor is left.
wrapped_left : get_successor (record crowded { table = remove_forward both listed }) ≡ some wrapped
unfolding remove_forward remove_if remove erase_first Hub.Table.remove_peer update_peer
    remove_peer_type find_peer erase_peer head_peer equals
wrapped_left = refl

greater_peer-clockwise_example :
    (greater_peer (pos 50) (pos 70) (pos 20)
      ≡ ltb
          (clockwise (ring_size (pos 0) (pos 99)) (pos 50) (pos 70))
          (clockwise (ring_size (pos 0) (pos 99)) (pos 50) (pos 20)))
    × (less_peer (pos 50) (pos 70) (pos 20)
        ≡ ltb
            (clockwise (ring_size (pos 0) (pos 99)) (pos 50) (pos 20))
            (clockwise (ring_size (pos 0) (pos 99)) (pos 50) (pos 70)))
greater_peer-clockwise_example =
    greater_peer-clockwise (pos 0) (pos 99) (pos 50) (pos 70) (pos 20) (omega arith) (omega arith)
      (omega arith) (λ e. absurd (ground (arith, e))) (λ e. absurd (ground (arith, e)))

abbrev joined_hub : MemberHub
joined_hub = set_successor time_none wrapped.address wrapped.range linked

joined_IsConsistent : IsConsistent joined_hub.table
joined_IsConsistent = Reach-IsSound (IsEmpty-IsSound alone (refl, λ k. refl)) (
    next (next here (long_added alone time_none low.address low.range))
      (successor_set linked time_none wrapped.address wrapped.range))

abbrev removed : MemberHub
removed = update_sorted (record joined_hub {
  table =
      remove_from_lists (record low { types = λ k. same_type long_nbr k }) low.address
        joined_hub.table;
})

low_removed : remove_peer low.address joined_hub ≡ running removed
unfolding remove_peer on_peer_death update_sorted remove_from_lists remove_if remove erase_first
    Hub.Table.remove_peer update_peer remove_peer_type find_peer erase_peer head_peer equals
    set_successor add_long_neighbor add clear remove_peers register insert_sid less_sid new_peer
    add_peer_type
low_removed = refl

remove_peer-repairs_example : removed.repairs ≡ joined_hub.repairs
remove_peer-repairs_example =
    remove_peer-repairs low.address joined_hub removed joined_IsConsistent low_removed

force_peer_refresh-lost_in_example :
    (q : Peer) × (find_peer low.address (force_peer_refresh late crowded).table.peers ≡ some q)
    × (lost_in 45000 late rev_long_nbr q ≡ lost_in 45000 late rev_long_nbr both)
force_peer_refresh-lost_in_example =
    force_peer_refresh-lost_in late late 45000 crowded low.address both both_found

update_sorted_peer_list-IsAscending_example :
    IsAscending (update_sorted_peer_list (low ∷ []) (wrapped ∷ []) [])
    × (begins (pos 10) (update_sorted_peer_list (low ∷ []) (wrapped ∷ []) [])
        ≡ (begins (pos 10) (low ∷ []) || (begins (pos 10) (wrapped ∷ []) || begins (pos 10) [])))
update_sorted_peer_list-IsAscending_example =
    update_sorted_peer_list-IsAscending (pos 10) (low ∷ []) (wrapped ∷ []) []

linked_IsAlive : IsAlive 45000 time_none long_nbr low.address linked.table
unfolding add_long_neighbor update_sorted add register insert_sid new_peer add_peer_type update_peer
    find_peer equals lost_in lost_pongs sub_msec ◌+ℤ◌
linked_IsAlive = record {
  consistent =
      Reach-IsSound (IsEmpty-IsSound alone (refl, λ k. refl))
        (next here (long_added alone time_none low.address low.range));
  listed = refl;
  heard = λ q e. ground (arith, e);
}

linked_checked : check_liveness 45000 time_none linked ≡ running linked
unfolding check_liveness sweep sweep_peer sweep_forward sweep_predecessor sweep_reverse sweep_role
    settle dead_forward dead_predecessor dead_reverse add_long_neighbor update_sorted add register
    insert_sid new_peer add_peer_type update_peer find_peer equals lost_pongs lost_pings sub_msec
    ◌+ℤ◌
linked_checked = refl

check_liveness-IsAlive_example : IsAlive 45000 time_none long_nbr low.address linked.table
check_liveness-IsAlive_example =
    check_liveness-IsAlive 45000 time_none long_nbr low.address linked linked linked_IsAlive
      linked_checked
