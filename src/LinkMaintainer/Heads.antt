-- ===== src/LinkMaintainer/Heads.antt =====
-- The neighbours that a hub has after its lists were set.
use distributed_games.Base.{
  ℕ, ◌≡◌, refl, ◌∙◌, ap, true, false, ◌||◌, ltb, some, List, [], ◌∷◌, ◌++◌, length, arith,
  Bool-cases, Option-cases, inl, inr,
}
use distributed_games.TimeVal.{TimeVal}
use distributed_games.Address.{IpEndPoint, equals}
use distributed_games.Constraint.{NodeRange}
use distributed_games.Message.Successors.{PeerInfo}
use distributed_games.Peer.{PeerType, Peer, successor, predecessor}
use distributed_games.Hub.Table.{Table, find_peer, contains, add, clear}
use distributed_games.Hub.Table.Finding.{equals-eq, equals_self}
use distributed_games.Hub.Table.Consistent.{add-IsConsistent, clear-IsConsistent, contains-add}
use distributed_games.Hub.Member.{
  MemberHub, head_peer, get_successor, add_successors, set_successor_list, set_predecessor, by_min,
  sort_list, sort_if_ranged, update_sorted, less_peer,
}
use distributed_games.Hub.Member.Ordered.{contains-sort}
use distributed_games.Hub.Member.Merge.{add_successors-IsConsistent}
use distributed_games.Hub.Sound.{IsSound, sort_if_ranged-IsConsistent}

find_peer-address :
    (a : IpEndPoint) (ps : List Peer) (p : Peer) → find_peer a ps ≡ some p → p.address ≡ a
unfolding find_peer
find_peer-address a [] p h = cc
find_peer-address a (q ∷ ps) p h = elim (Bool-cases (equals q.address a)) [
  | inl e ↦ equals-eq p.address a (ground (arith, e, h))
  | inr e ↦ find_peer-address a ps p (ground (arith, e, h))
]

-- The first peer of a list that is not empty.
pub head_peer-first :
    (k : PeerType) (h : MemberHub) (a : IpEndPoint) (xs : List IpEndPoint)
    → IsSound h
    → h.table.lists k ≡ a ∷ xs
    → (p : Peer) × (head_peer k h ≡ some p) × (p.address ≡ a)
unfolding head_peer
head_peer-first k h a xs v e = elim (Option-cases (find_peer a h.table.peers)) [
  | inl n ↦ absurd (ground (arith, e, n, v.listed k a, equals_self a, ap (contains a) e))
  | inr (p, f) ↦ (p, rw (e, head_peer) f, find_peer-address a h.table.peers p f)
]

add-first :
    (now : TimeVal) (a b : IpEndPoint) (r : NodeRange) (xs : List IpEndPoint) (t : Table)
    → t.lists successor ≡ a ∷ xs
    → (ys : List IpEndPoint) × ((add now successor b r false t).lists successor ≡ a ∷ ys)
unfolding add
add-first now a b r xs t e = elim (Bool-cases (contains b (a ∷ xs))) [
  | inl c ↦ (xs, ground (arith, e, c, ap (contains b) e))
  | inr c ↦ (xs ++ b ∷ [], ground (arith, e, c, ap (contains b) e))
]

add_successors-first :
    (now : TimeVal) (limit : ℕ) (own a : IpEndPoint) (is : List PeerInfo) (xs : List IpEndPoint)
    (t : Table)
    → t.lists successor ≡ a ∷ xs
    → (ys : List IpEndPoint) × ((add_successors now limit own is t).lists successor ≡ a ∷ ys)
unfolding add_successors
add_successors-first now limit own a [] xs t e = (xs, e)
add_successors-first now limit own a (i ∷ is) xs t e =
    elim (Bool-cases (equals i.addr own || ltb limit (length (t.lists successor)))) [
      | inl stop ↦ (xs, ground (arith, stop, e))
      | inr go ↦
          let (ys, f) = add-first now a i.addr i.range xs t e in
          let (zs, g) =
            add_successors-first now limit own a is ys (add now successor i.addr i.range false t)
              f in
          (zs, ground (arith, go, g))
    ]

add_successors-go :
    (now : TimeVal) (limit : ℕ) (own : IpEndPoint) (i : PeerInfo) (is : List PeerInfo) (t : Table)
    → equals i.addr own ≡ false
    → t.lists successor ≡ []
    → add_successors now limit own (i ∷ is) t
      ≡ add_successors now limit own is (add now successor i.addr i.range false t)
unfolding add_successors
add_successors-go now limit own i is t other empty =
    ground (arith, other, ap (λ (l : List IpEndPoint). length l) empty)

-- After the successor list has been set, the successor is the first node of the list, which is not
-- the node itself.
pub set_successor_list-first :
    (now : TimeVal) (limit : ℕ) (i : PeerInfo) (is : List PeerInfo) (h : MemberHub)
    → IsSound h
    → equals i.addr h.address ≡ false
    → (p : Peer) × (get_successor (set_successor_list now limit (i ∷ is) h) ≡ some p)
      × (p.address ≡ i.addr)
unfolding set_successor_list update_sorted
set_successor_list-first now limit i is h v other =
    let empty = clear successor h.table in
    let one = add now successor i.addr i.range false empty in
    let first : one.lists successor ≡ i.addr ∷ [] = unfold add clear in refl in
    let (ys, e) = add_successors-first now limit h.address i.addr is [] one first in
    let whole : (add_successors now limit h.address (i ∷ is) empty).lists successor ≡ i.addr ∷ ys =
      ap (λ t. t.lists successor)
        (add_successors-go now limit h.address i is empty other (unfold clear in refl))
      ∙ e in
    head_peer-first successor _ i.addr ys
      (add_successors-IsConsistent now limit h.address (i ∷ is) empty
        (clear-IsConsistent successor h.table v))
      whole

-- Setting the predecessor keeps the hub sound, its range and its successors, and lists the node.
pub set_predecessor-listed :
    (now : TimeVal) (a : IpEndPoint) (r : NodeRange) (h : MemberHub)
    → IsSound h
    → IsSound (set_predecessor now a r h)
      × (contains a ((set_predecessor now a r h).table.lists predecessor) ≡ true)
unfolding set_predecessor update_sorted sort_if_ranged sort_list
set_predecessor-listed now a r h v =
    let t = add now predecessor a r true h.table in
    let w = add-IsConsistent now predecessor a r true h.table v in
    let there : contains a (t.lists predecessor) ≡ true =
      ground
        (arith, contains-add now predecessor predecessor a a r true h.table v, equals_self a) in
    (
      sort_if_ranged-IsConsistent predecessor less_peer h.range t w,
      elim (Option-cases h.range) [
        | inl n ↦ rw n there
        | inr (own, n) ↦
            rw n (contains-sort (by_min (less_peer own.min) t) a (t.lists predecessor) ∙ there)
      ],
    )
