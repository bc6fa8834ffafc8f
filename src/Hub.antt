-- ===== src/Hub.antt =====
-- The peers of a member of a hub (mercury/Hub.cpp): which known peer is the nearest to a value. The
-- map `m_SortedPeers` is a list here, ordered by the minima of the ranges.
pub mod Nearest
pub mod Table
pub mod Member
pub mod Liveness
pub mod Sound
pub mod Sweeping
pub mod Skipping
pub mod Alive
pub mod Repairs
pub mod Sorted
pub mod Steps
use distributed_games.Base.{
  ℕ, Bool, true, false, ◌&&◌, ◌||◌, Option, none, some, List, [], ◌∷◌, ltb_ℤ, leb_ℤ, eqb_ℤ,
  if◌then◌else◌,
}
use distributed_games.Value.{Value, is_between_inclusive, is_between_left_inclusive}
use distributed_games.Constraint.{Constraint}
use distributed_games.Peer.{Peer}

-- `insert` of a map leaves a key that is there as it is.
insert_peer : Peer → List Peer → List Peer
insert_peer p [] = p ∷ []
insert_peer p (q ∷ qs) =
    let rest = insert_peer p qs in
    if ltb_ℤ p.range.min q.range.min
    then p ∷ q ∷ qs
    else if eqb_ℤ p.range.min q.range.min
    then q ∷ qs
    else q ∷ rest

insert_peers : List Peer → List Peer → List Peer
insert_peers [] sorted = sorted
insert_peers (p ∷ ps) sorted = insert_peers ps (insert_peer p sorted)

pub update_sorted_peer_list : List Peer → List Peer → List Peer → List Peer
update_sorted_peer_list successors long_neighbors predecessors =
    insert_peers predecessors (insert_peers long_neighbors (insert_peers successors []))

unfoldable pub less : Value → Value → Value → Bool
less absmax val other = if eqb_ℤ val absmax then leb_ℤ val other else ltb_ℤ val other

-- The loop of `GetNearestPeer` from an entry of the map on; `first` is the first entry, and `none`
-- a failed ASSERT.
unfoldable pub nearest_from : Value → Value → Peer → List Peer → Option Peer
nearest_from absmax val first [] = none
nearest_from absmax val first (cur ∷ []) =
    if leb_ℤ cur.range.max val
    then some cur
    else if ltb_ℤ val first.range.max
    then if leb_ℤ first.range.min val then some first else some cur
    else none
nearest_from absmax val first (cur ∷ next ∷ rest) =
    let later = nearest_from absmax val first (next ∷ rest) in
    let comp = if ltb_ℤ next.range.max next.range.min then absmax else next.range.max in
    if leb_ℤ cur.range.max val && less absmax val comp
    then if ltb_ℤ val next.range.min then some cur else some next
    else later

-- `GetNearestPeer`. The two values of `Option` are `NULL` and a peer; a failed ASSERT is `none` as
-- well, and does not occur on an ordered ring.
unfoldable pub get_nearest_peer : Value → Value → List Peer → Option Peer
get_nearest_peer absmax val [] = none
get_nearest_peer absmax val (p ∷ ps) = nearest_from absmax val p (p ∷ ps)

pub get_covering_peers : Constraint → List Peer → List Peer
get_covering_peers cst [] = []
get_covering_peers cst (p ∷ ps) =
    let rest = get_covering_peers cst ps in
    if eqb_ℤ cst.min cst.max
    then []
    else if is_between_inclusive p.range.min cst.min cst.max
        || is_between_left_inclusive cst.min p.range.min p.range.max
    then p ∷ rest
    else rest
