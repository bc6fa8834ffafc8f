-- ===== src/Hub/Skipping.antt =====
-- The loop of `CheckLiveness` on a peer that is dead in two roles.
use distributed_games.Base.{ℕ, ◌+◌, ◌≡◌, true, false, some, List, ◌∷◌, length, arith}
use distributed_games.TimeVal.{TimeVal}
use distributed_games.Address.{IpEndPoint, equals}
use distributed_games.Peer.{Peer}
use distributed_games.Hub.Table.{find_peer}
use distributed_games.Hub.Member.{MemberHub, ◌>>=◌}
use distributed_games.Hub.Liveness.{
  on_peer_death, sweep_role, sweep_peer, sweep, sweep_forward, sweep_predecessor, sweep_reverse,
  settle, dead_forward, dead_predecessor, dead_reverse,
}

-- A peer that is dead both as a successor or long neighbour and as a predecessor, and not as a
-- reverse long neighbour.
module _ (timeout : ℕ) (now : TimeVal) (a : IpEndPoint) (p : Peer) (h : MemberHub)
    (known : find_peer a h.table.peers ≡ some p) (other : equals a h.address ≡ false)
    (forward : dead_forward timeout now p ≡ true)
    (backward : dead_predecessor timeout now p ≡ true) where
  -- The loop passes over the peer behind one that is dead in two roles.
  pub sweep_skips :
      (b : IpEndPoint) (keys : List IpEndPoint)
      → dead_reverse timeout now p ≡ false
      → sweep timeout now 0 (a ∷ b ∷ keys) h
        ≡ (sweep_peer timeout now p (length keys + 1) h >>= (λ s. sweep timeout now 0 keys s.hub))
  unfolding sweep sweep_peer sweep_forward sweep_predecessor sweep_reverse sweep_role on_peer_death
      settle
  sweep_skips b keys alive = ground (arith, known, other, forward, backward, alive)
