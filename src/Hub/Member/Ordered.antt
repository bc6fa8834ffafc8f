-- ===== src/Hub/Member/Ordered.antt =====
-- The order that the lists of peers are sorted by, and what sorting keeps.
use distributed_games.Base.{
  ◌≡◌, ◌≢◌, refl, Bool, true, false, ◌||◌, ltb, List, [], ◌∷◌, arith, eq_of_parts, ltb_ℤ,
}
use distributed_games.Value.{Value}
use distributed_games.Value.Ring.{IsOnRing, ring_size, clockwise}
use distributed_games.Address.{IpEndPoint, equals}
use distributed_games.Peer.{PeerType}
use distributed_games.Hub.Table.{Table, contains}
use distributed_games.Hub.Table.Consistent.{
  IsDistinct, IsConsistent, equals-sym, reorder-IsConsistent,
}
use distributed_games.Hub.Member.{less_peer, greater_peer, insert_before, sort, sort_list, by_min}

module _ (lo hi myself a b : Value) (m : IsOnRing lo hi myself) (ha : IsOnRing lo hi a)
    (hb : IsOnRing lo hi b) where
  -- Of two peers that do not begin at the node's own minimum, the successor list has first the one
  -- that is nearer clockwise, and the predecessor list the one that is farther.
  pub greater_peer-clockwise :
      a ≢ myself
      → b ≢ myself
      → (greater_peer myself a b
          ≡ ltb (clockwise (ring_size lo hi) myself a) (clockwise (ring_size lo hi) myself b))
        × (less_peer myself a b
            ≡ ltb (clockwise (ring_size lo hi) myself b) (clockwise (ring_size lo hi) myself a))
  unfolding greater_peer less_peer clockwise
  greater_peer-clockwise na nb = (
    ground (arith, eq_of_parts a myself, eq_of_parts b myself),
    ground (arith, eq_of_parts a myself, eq_of_parts b myself),
  )

-- A peer that begins at the node's own minimum makes the order of the successors cyclic.
pub greater_peer_cycle :
    (myself a b : Value)
    → ltb_ℤ myself a ≡ true
    → ltb_ℤ b myself ≡ true
    → (greater_peer myself myself a ≡ true)
      × (greater_peer myself a b ≡ true)
      × (greater_peer myself b myself ≡ true)
unfolding greater_peer
greater_peer_cycle myself a b h k = ground arith

module _ (before : IpEndPoint → IpEndPoint → Bool) where
  contains-insert_before :
      (a b : IpEndPoint) (xs : List IpEndPoint)
      → contains b (insert_before before a xs) ≡ (equals a b || contains b xs)
  unfolding insert_before
  contains-insert_before a b [] = refl
  contains-insert_before a b (x ∷ xs) = ground (arith, contains-insert_before a b xs)

  pub contains-sort :
      (b : IpEndPoint) (xs : List IpEndPoint) → contains b (sort before xs) ≡ contains b xs
  unfolding sort
  contains-sort b [] = refl
  contains-sort b (x ∷ xs) =
      ground (arith, contains-insert_before x b (sort before xs), contains-sort b xs)

  insert_before-IsDistinct :
      (a : IpEndPoint) (xs : List IpEndPoint)
      → contains a xs ≡ false
      → IsDistinct xs
      → IsDistinct (insert_before before a xs)
  unfolding insert_before
  insert_before-IsDistinct a [] h d = (refl, tt)
  insert_before-IsDistinct a (x ∷ xs) h d =
      ground (arith, equals-sym a x, contains-insert_before a x xs, insert_before-IsDistinct a xs)

  sort-IsDistinct : (xs : List IpEndPoint) → IsDistinct xs → IsDistinct (sort before xs)
  unfolding sort
  sort-IsDistinct [] d = tt
  sort-IsDistinct (x ∷ xs) d =
      insert_before-IsDistinct x (sort before xs) (ground (arith, contains-sort x xs))
        (sort-IsDistinct xs d.1)

pub sort_list-IsConsistent :
    (k : PeerType) (before : Value → Value → Bool) (t : Table)
    → IsConsistent t
    → IsConsistent (sort_list k before t)
unfolding sort_list
sort_list-IsConsistent k before t v =
    reorder-IsConsistent k (sort (by_min before t) (t.lists k)) t
      (sort-IsDistinct (by_min before t) (t.lists k) (v.distinct k))
      (λ b. contains-sort (by_min before t) b (t.lists k)) v
