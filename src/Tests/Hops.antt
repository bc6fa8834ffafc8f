-- ===== src/Tests/Hops.antt =====
-- Peers on the ring and the next hop.
use distributed_games.Base.{
  ℕ, ℤ, Bool, ◌≡◌, refl, true, false, pos, some, none, [], ◌∷◌, ltb, arith,
}
use mathlib.Core.List.Memᴰ
use distributed_games.Value.Ring.{ring_size, clockwise}
use distributed_games.Constraint.Overlap.{covers_iff}
use distributed_games.TimeVal.{time_none}
use distributed_games.Peer.{Peer}
use distributed_games.Hub.{get_nearest_peer}
use distributed_games.Hub.Nearest.{nearest, get_nearest_peer_lem}
use distributed_games.PubsubRouter.{is_closer, compute_next_hop}
use distributed_games.PubsubRouter.NextHop.{is_closer-clockwise, compute_next_hop_owner}

-- The peer at a port, with a range from one value to another.
abbrev pub peer_at : ℕ → ℤ → ℤ → Bool → Peer
peer_at port from to is_successor = record {
  address = record { ip = port; port = 1 };
  range = record { attr_index = pos 1; min = from; max = to };
  last_msg_time = time_none;
  last_ping_sent = time_none;
  last_successor_ping = time_none;
  last_long_neighbor_ping = time_none;
  rtt_samples = [];
  sent_pings = [];
  seqno = 1;
  types = λ t. is_successor;
}

abbrev pub low : Peer
low = peer_at 1 (pos 10) (pos 20) false

abbrev middle : Peer
middle = peer_at 2 (pos 30) (pos 40) true

abbrev high : Peer
high = peer_at 3 (pos 60) (pos 90) false

abbrev pub wrapped : Peer
wrapped = peer_at 4 (pos 95) (pos 5) false

get_nearest_peer_lem_example :
    get_nearest_peer (pos 99) (pos 50) (low ∷ middle ∷ high ∷ [])
    ≡ some (nearest (pos 50) low (middle ∷ high ∷ []))
get_nearest_peer_lem_example =
    get_nearest_peer_lem (pos 99) (pos 50) low (middle ∷ high ∷ []) (omega arith)
      (omega arith, omega arith, (omega arith, omega arith, (omega arith, omega arith)))
      (λ a b. omega (arith, b))

is_closer-clockwise_example :
    is_closer (pos 50) (pos 70) (pos 20)
    ≡ ltb
        (clockwise (ring_size (pos 0) (pos 99)) (pos 50) (pos 70))
        (clockwise (ring_size (pos 0) (pos 99)) (pos 50) (pos 20))
is_closer-clockwise_example =
    is_closer-clockwise (pos 0) (pos 99) (pos 50) (pos 70) (pos 20) (omega arith, omega arith)
      (omega arith, omega arith) (omega arith, omega arith) (λ e. absurd (ground arith))
      (λ e. absurd (ground arith)) (λ e. absurd (ground arith))

compute_next_hop_owner_example :
    compute_next_hop high.range (pos 99) none (some low) (low ∷ middle ∷ []) (pos 35)
    ≡ some middle.address
compute_next_hop_owner_example =
    compute_next_hop_owner high.range (pos 99) (pos 35) none (some low) low middle (middle ∷ [])
      (omega arith) (omega arith, omega arith, (omega arith, omega arith)) (λ a b. omega (arith, b))
      (Memᴰ.tail (Memᴰ.head refl))
      ((covers_iff middle.range (pos 35) (omega arith)).1 (omega arith, omega arith))
