-- ===== src/Hub/Sorted.antt =====
-- The peers in the order of the ring, whatever the lists are.
use distributed_games.Base.{
  ◌≡◌, refl, Bool, false, ◌||◌, List, [], ◌∷◌, ltb_ℤ, eqb_ℤ, ◌<ℤ◌, arith, Bool-cases, inl, inr,
}
use distributed_games.Value.{Value}
use distributed_games.Peer.{Peer}
use distributed_games.Hub.{insert_peer, insert_peers, update_sorted_peer_list}

abbrev pub Above : Value → List Peer → Type 0
Above v [] = Unit {0}
Above v (p ∷ ps) = v <ℤ p.range.min

-- Strictly ascending minima.
abbrev pub IsAscending : List Peer → Type 0
IsAscending [] = Unit {0}
IsAscending (p ∷ ps) = Above p.range.min ps × IsAscending ps

-- Whether some peer's range begins at a value.
abbrev pub begins : Value → List Peer → Bool
begins v [] = false
begins v (p ∷ ps) = eqb_ℤ p.range.min v || begins v ps

insert_peer-Above :
    (v : Value) (p : Peer) (ps : List Peer)
    → v <ℤ p.range.min
    → Above v ps
    → Above v (insert_peer p ps)
unfolding insert_peer
insert_peer-Above v p [] h a = h
insert_peer-Above v p (q ∷ qs) h a = ground arith

above : (v w : Value) → ltb_ℤ v w ≡ false → eqb_ℤ v w ≡ false → w <ℤ v
above v w h k = ground arith

insert_peer-IsAscending :
    (p : Peer) (ps : List Peer) → IsAscending ps → IsAscending (insert_peer p ps)
unfolding insert_peer
insert_peer-IsAscending p [] a = (tt, tt)
insert_peer-IsAscending p (q ∷ qs) a = elim (Bool-cases (ltb_ℤ p.range.min q.range.min)) [
  | inl lt ↦ rw (lt, insert_peer) (ground arith, a)
  | inr ge ↦ elim (Bool-cases (eqb_ℤ p.range.min q.range.min)) [
    | inl same ↦ rw (ge, same, insert_peer) a
    | inr other ↦
        rw (ge, other, insert_peer)
          (
            insert_peer-Above q.range.min p qs (above p.range.min q.range.min ge other) a.0,
            insert_peer-IsAscending p qs a.1,
          )
  ]
]

begins-insert_peer :
    (v : Value) (p : Peer) (ps : List Peer)
    → begins v (insert_peer p ps) ≡ (eqb_ℤ p.range.min v || begins v ps)
unfolding insert_peer
begins-insert_peer v p [] = refl
begins-insert_peer v p (q ∷ qs) = ground (arith, begins-insert_peer v p qs)

insert_peers_lem :
    (v : Value) (ps sorted : List Peer)
    → IsAscending sorted
    → IsAscending (insert_peers ps sorted)
      × (begins v (insert_peers ps sorted) ≡ (begins v ps || begins v sorted))
unfolding insert_peers
insert_peers_lem v [] sorted a = (a, refl)
insert_peers_lem v (p ∷ ps) sorted a = ground (
  arith,
  insert_peer-IsAscending p sorted a,
  begins-insert_peer v p sorted,
  insert_peers_lem v ps (insert_peer p sorted),
)

-- The peers in the order of the ring have strictly ascending minima, and a value is the minimum of
-- one of them exactly if it is that of a successor, long neighbour or predecessor.
pub update_sorted_peer_list-IsAscending :
    (v : Value) (successors long_neighbors predecessors : List Peer)
    → IsAscending (update_sorted_peer_list successors long_neighbors predecessors)
      × (begins v (update_sorted_peer_list successors long_neighbors predecessors)
          ≡ (begins v successors || (begins v long_neighbors || begins v predecessors)))
unfolding update_sorted_peer_list
update_sorted_peer_list-IsAscending v successors long_neighbors predecessors =
    let s1 = insert_peers_lem v successors [] tt in
    let s2 = insert_peers_lem v long_neighbors (insert_peers successors []) s1.0 in
    let s3 =
      insert_peers_lem v predecessors (insert_peers long_neighbors (insert_peers successors []))
        s2.0 in
    (s3.0, ground (arith, s1.1, s2.1, s3.1))
