-- ===== src/Hub/Member.antt =====
-- mercury/Hub.cpp: a member of a hub (`MemberHub`), its lists of peers and the peers in the order
-- of the ring. What it sends is returned; the clock and the settings are arguments.
pub mod Ordered
pub mod Merge
use distributed_games.Base.{
  ℕ, ◌≡◌, refl, Bool, true, false, not, ◌&&◌, ◌||◌, ltb, ltb_ℤ, leb_ℤ, eqb_ℤ, if◌then◌else◌, Option,
  none, some, List, [], ◌∷◌, ◌++◌, length, map,
}
use distributed_games.Value.{Value}
use distributed_games.TimeVal.{TimeVal}
use distributed_games.Address.{IpEndPoint, equals}
use distributed_games.Constraint.{NodeRange, range_none}
use distributed_games.Constraint
use distributed_games.Message.Successors.{PeerInfo}
use distributed_games.Peer.{PeerType, Peer, successor, predecessor, long_nbr, rev_long_nbr}
use distributed_games.Hub.{update_sorted_peer_list}
use distributed_games.Hub.Table.{Table, find_peer, contains, set_list, add, remove, clear}

pub data Status : Type 0 where
  unjoined joining succ_response_wait changing_successor_wait got_changing_successor joined : Status

-- `sorted` holds the peers that `m_SortedPeers` refers to, in its order, and `repairs` counts the
-- calls of `LinkMaintainer::RepairPointer`.
pub record MemberHub : Type 0 where
  pub address : IpEndPoint
  pub status : Status
  pub range : Option NodeRange
  pub table : Table
  pub sorted : List IpEndPoint
  pub repairs : ℕ

-- The process goes on, has called `_exit`, or has done what the language leaves undefined.
pub data Outcome (A : Type 0) : Type 0 where
  running : A → Outcome A
  exited fault : Outcome A

infixl 5 ◌>>=◌
abbrev pub ◌>>=◌ : {A B : Type 0} → Outcome A → (A → Outcome B) → Outcome B
running a >>= f = f a
exited >>= f = exited
fault >>= f = fault

-- Inversion of a successful bind.
pub >>=-running :
    {A B : Type 0} (o : Outcome A) (f : A → Outcome B) {b : B}
    → (o >>= f) ≡ running b
    → (a : A) × (o ≡ running a) × (f a ≡ running b)
>>=-running (running a) f h = (a, refl, h)
>>=-running exited f h = cc
>>=-running fault f h = cc

-- `less_peer_t` and `greater_peer_t` on the minima of two ranges
unfoldable pub less_peer : Value → Value → Value → Bool
less_peer myself av bv =
    if eqb_ℤ av myself
    then false
    else if eqb_ℤ bv myself
    then true
    else if leb_ℤ av myself && leb_ℤ bv myself || leb_ℤ myself av && leb_ℤ myself bv
    then ltb_ℤ bv av
    else if leb_ℤ av myself && leb_ℤ myself bv
    then true
    else false

unfoldable pub greater_peer : Value → Value → Value → Bool
greater_peer myself av bv =
    if leb_ℤ av myself && leb_ℤ bv myself || leb_ℤ myself av && leb_ℤ myself bv
    then ltb_ℤ av bv
    else if leb_ℤ av myself && leb_ℤ myself bv
    then false
    else true

-- `sort` of a list: stable, so that equal elements keep their order.
module _ (before : IpEndPoint → IpEndPoint → Bool) where
  unfoldable pub insert_before : IpEndPoint → List IpEndPoint → List IpEndPoint
  insert_before a [] = a ∷ []
  insert_before a (b ∷ bs) =
      let rest = insert_before a bs in if before b a then b ∷ rest else a ∷ b ∷ bs

  unfoldable pub sort : List IpEndPoint → List IpEndPoint
  unfolding insert_before
  sort [] = []
  sort (a ∷ xs) = insert_before a (sort xs)

-- A comparison of peers, through the map.
unfoldable pub by_min : (Value → Value → Bool) → Table → IpEndPoint → IpEndPoint → Bool
by_min before t a b = elim (find_peer a t.peers) [
  | none ↦ false
  | some p ↦ elim (find_peer b t.peers) [ none ↦ false | some q ↦ before p.range.min q.range.min ]
]

unfoldable pub sort_list : PeerType → (Value → Value → Bool) → Table → Table
unfolding by_min
sort_list k before t = record t { lists = set_list k (sort (by_min before t) (t.lists k)) t.lists }

-- The peers of a list.
unfoldable pub peers_at : List IpEndPoint → List Peer → List Peer
peers_at [] ps = []
peers_at (a ∷ xs) ps =
    let rest = peers_at xs ps in elim (find_peer a ps) [ none ↦ rest | some p ↦ p ∷ rest ]

-- `UpdateSortedPeerList`
unfoldable pub update_sorted : MemberHub → MemberHub
unfolding peers_at
update_sorted h =
    let peers_in = λ (k : PeerType). peers_at (h.table.lists k) h.table.peers in
    record h {
      sorted =
          map (λ p. p.address)
            (update_sorted_peer_list (peers_in successor) (peers_in long_nbr)
              (peers_in predecessor));
    }

unfoldable pub head_peer : PeerType → MemberHub → Option Peer
head_peer k h = elim (h.table.lists k) [ [] ↦ none | a ∷ xs ↦ find_peer a h.table.peers ]

abbrev pub get_predecessor : MemberHub → Option Peer
get_predecessor = head_peer predecessor

abbrev pub get_successor : MemberHub → Option Peer
get_successor = head_peer successor

unfoldable pub clear_predecessor : MemberHub → MemberHub
clear_predecessor h = record h { table = clear predecessor h.table }

unfoldable pub add_long_neighbor : TimeVal → IpEndPoint → NodeRange → MemberHub → MemberHub
add_long_neighbor now a r h =
    update_sorted (record h { table = add now long_nbr a r false h.table })

-- Sorting the list of predecessors, or of successors, if the node has a range.
unfoldable pub sort_if_ranged :
    PeerType → (Value → Value → Value → Bool) → Option NodeRange → Table → Table
sort_if_ranged k before none t = t
sort_if_ranged k before (some own) t = sort_list k (before own.min) t

unfoldable pub add_predecessor : TimeVal → IpEndPoint → NodeRange → MemberHub → MemberHub
unfolding sort_if_ranged
add_predecessor now a r h = update_sorted (record h {
  table = sort_if_ranged predecessor less_peer h.range (add now predecessor a r false h.table);
})

unfoldable pub add_reverse_long_neighbor : TimeVal → IpEndPoint → NodeRange → MemberHub → MemberHub
add_reverse_long_neighbor now a r h = record h { table = add now rev_long_nbr a r false h.table }

unfoldable pub set_predecessor : TimeVal → IpEndPoint → NodeRange → MemberHub → MemberHub
unfolding sort_if_ranged
set_predecessor now a r h = update_sorted (record h {
  table = sort_if_ranged predecessor less_peer h.range (add now predecessor a r true h.table);
})

unfoldable pub set_successor : TimeVal → IpEndPoint → NodeRange → MemberHub → MemberHub
set_successor now a r h =
    update_sorted (record h { table = add now successor a r true (clear successor h.table) })

unfoldable pub merge_successor : TimeVal → IpEndPoint → NodeRange → MemberHub → MemberHub
unfolding sort_if_ranged
merge_successor now a r h = record h {
  table = sort_if_ranged successor greater_peer h.range (add now successor a r false h.table);
}

-- The loop that adds successors, up to the node itself and while the list is not too long.
unfoldable pub add_successors : TimeVal → ℕ → IpEndPoint → List PeerInfo → Table → Table
add_successors now limit own [] t = t
add_successors now limit own (i ∷ is) t =
    let rest = add_successors now limit own is (add now successor i.addr i.range false t) in
    if equals i.addr own then t else if ltb limit (length (t.lists successor)) then t else rest

unfoldable pub set_successor_list : TimeVal → ℕ → List PeerInfo → MemberHub → MemberHub
set_successor_list now limit infos h =
    update_sorted
      (record h { table = add_successors now limit h.address infos (clear successor h.table) })

-- The addresses of the new list that are to stay: a set.
unfoldable pub new_succs : ℕ → IpEndPoint → List PeerInfo → List IpEndPoint → List IpEndPoint
new_succs limit own [] set = set
new_succs limit own (i ∷ is) set =
    let rest = new_succs limit own is (if contains i.addr set then set else set ++ i.addr ∷ []) in
    if equals i.addr own then set else if ltb limit (length set) then set else rest

-- The removal of the successors that are not in a set.
pub remove_others : List IpEndPoint → List IpEndPoint → Table → Table
remove_others set [] t = t
remove_others set (a ∷ xs) t =
    remove_others set xs (if contains a set then t else remove successor a t)

-- `MergeSuccessorList` without the sorting.
pub merge_table : TimeVal → ℕ → IpEndPoint → List PeerInfo → Table → Table
merge_table now limit own infos t =
    add_successors now limit own infos
      (remove_others (new_succs limit own infos []) (t.lists successor) t)

-- A node without a range is a null pointer here.
unfoldable pub merge_successor_list : TimeVal → ℕ → List PeerInfo → MemberHub → Outcome MemberHub
merge_successor_list now limit infos h = elim h.range [
  | none ↦ fault
  | some own ↦ running (
      update_sorted (record h {
        table =
            sort_list successor (greater_peer own.min)
              (merge_table now limit h.address infos h.table);
      }))
]

-- `SetRange`, and whether the router is told of a change.
unfoldable pub set_range : Option NodeRange → MemberHub → MemberHub × Bool
set_range none h = (record h { range = none }, false)
set_range (some r) h = (
  record h { range = some r },
  elim h.range [ none ↦ false | some old ↦ not (Constraint.equals old r) ],
)
