-- ===== src/PubsubRouter/NextHop.antt =====
-- Where a message for a value goes.
use distributed_games.Base.{
  ◌≡◌, ◌≢◌, refl, ap, ◌∙◌, true, Option, some, List, ◌∷◌, ltb, ◌≤ℤ◌, ◌<ℤ◌, arith, eq_of_parts,
}
use mathlib.Core.List.{Memᴰ}
use distributed_games.Value.{Value}
use distributed_games.Value.Ring.{IsOnRing, ring_size, clockwise}
use distributed_games.Constraint.{NodeRange, covers}
use distributed_games.Constraint.Overlap.{covers_bounds}
use distributed_games.Peer.{Peer}
use distributed_games.Cache.{CacheEntry}
use distributed_games.Hub.{get_nearest_peer}
use distributed_games.Hub.Nearest.{IsTiled, last_peer, get_nearest_peer_lem, nearest_owner}
use distributed_games.PubsubRouter.{is_closer, compute_next_hop}

-- Of two values of the ring that differ from each other and from the start, the first is closer if
-- the way clockwise from the start to it is shorter.
pub is_closer-clockwise :
    (lo hi start first second : Value)
    → IsOnRing lo hi start
    → IsOnRing lo hi first
    → IsOnRing lo hi second
    → start ≢ first
    → start ≢ second
    → first ≢ second
    → is_closer start first second
      ≡ ltb (clockwise (ring_size lo hi) start first) (clockwise (ring_size lo hi) start second)
unfolding is_closer clockwise
is_closer-clockwise lo hi start first second hs hf h2 n1 n2 n3 =
    ground (arith, eq_of_parts start first, eq_of_parts start second, eq_of_parts first second)

-- A message for a value that a known peer covers goes straight to that peer, whatever the cache
-- holds. The peers are in the order of the ring, and if the value lies in the first range, the last
-- peer ends after it.
pub compute_next_hop_owner :
    (own : NodeRange) (absmax val : Value) (entry : Option CacheEntry) (pred : Option Peer)
    (p q : Peer) (ps : List Peer)
    → val ≤ℤ absmax
    → IsTiled absmax (p ∷ ps)
    → (p.range.min ≤ℤ val → val <ℤ p.range.max → val <ℤ (last_peer p ps).range.max)
    → Memᴰ q (p ∷ ps)
    → covers q.range val ≡ true
    → compute_next_hop own absmax entry pred (p ∷ ps) val ≡ some q.address
unfolding compute_next_hop
compute_next_hop_owner own absmax val entry pred p q ps b t w m c =
    let bounds = covers_bounds q.range val c in
    let e : get_nearest_peer absmax val (p ∷ ps) ≡ some q =
      get_nearest_peer_lem absmax val p ps b t w
      ∙ ap (λ x. some x) (nearest_owner absmax val p q ps t m bounds.0 bounds.1) in
    rw (e, compute_next_hop, c) refl
