-- ===== src/Hub/Alive.antt =====
-- Nobody who is heard of is dropped by `CheckLiveness`.
use distributed_games.Base.{
  ℕ, ◌≡◌, refl, ◌∙◌, Bool, true, false, ◌&&◌, none, some, List, [], ◌∷◌, arith, Bool-cases,
  Option-cases, inl, inr, ◌⊎◌, ap, subst,
}
use distributed_games.TimeVal.{TimeVal}
use distributed_games.Address.{IpEndPoint, equals}
use distributed_games.Peer.{
  PeerType, Peer, same_type, successor, predecessor, long_nbr, rev_long_nbr, lost_pongs, lost_pings,
  remove_peer_type,
}
use distributed_games.Hub.Table.{Table, find_peer, contains, update_peer, remove_peer, remove}
use distributed_games.Hub.Table.Finding.{
  find_peer-update_peer, find_peer-erase_peer, remove_peer_type_effect, equals-eq,
}
use distributed_games.Hub.Table.Consistent.{IsConsistent, remove-IsConsistent, contains-remove}
use distributed_games.Hub.Member.{MemberHub, running}
use distributed_games.Hub.Liveness.{
  remove_if, remove_forward, dead_forward, dead_predecessor, dead_reverse, check_liveness,
}
use distributed_games.Hub.Sweeping.{Leaves, RemovalsKeep, check_liveness-Leaves}

-- A peer counts as lost in a role.
unfoldable pub lost_in : ℕ → TimeVal → PeerType → Peer → Bool
lost_in timeout now successor p = lost_pongs timeout now p
lost_in timeout now long_nbr p = lost_pongs timeout now p
lost_in timeout now predecessor p = elim (lost_pings timeout now successor p) [
  | none ↦ false
  | some b ↦ b
]
lost_in timeout now rev_long_nbr p = elim (lost_pings timeout now long_nbr p) [
  | none ↦ false
  | some b ↦ b
]

lost_in-remove_peer_type :
    (timeout : ℕ) (now : TimeVal) (j k : PeerType) (p : Peer)
    → lost_in timeout now j (remove_peer_type k p) ≡ lost_in timeout now j p
unfolding lost_in remove_peer_type lost_pongs lost_pings
lost_in-remove_peer_type timeout now successor k p = refl
lost_in-remove_peer_type timeout now long_nbr k p = refl
lost_in-remove_peer_type timeout now predecessor k p = refl
lost_in-remove_peer_type timeout now rev_long_nbr k p = refl

-- A peer that an address keeps through a removal is the one that it had, up to its types.
found_before :
    (k : PeerType) (a b : IpEndPoint) (ps : List Peer) (q : Peer)
    → find_peer b (remove_peer k a ps) ≡ some q
    → (p : Peer) × (find_peer b ps ≡ some p) × ((q ≡ p) ⊎ (q ≡ remove_peer_type k p))
unfolding remove_peer
found_before k a b ps q h =
    let local = λ (p : Peer). (remove_peer_type_effect k k p).0 in
    let at_b = find_peer-update_peer a b (remove_peer_type k) ps local in
    let erased = find_peer-erase_peer a b (update_peer a (remove_peer_type k) ps) in
    elim (Option-cases (find_peer b ps)) [
      | inl n ↦ absurd (ground (arith, h, n, at_b, erased))
      | inr (p, e) ↦ elim (Bool-cases (equals a b)) [
        | inl s ↦ (p, e, inr (ground (arith, h, e, s, at_b, erased)))
        | inr o ↦ (p, e, inl (ground (arith, h, e, o, at_b, erased)))
      ]
    ]

found_before_remove :
    (k : PeerType) (a b : IpEndPoint) (t : Table) (q : Peer)
    → find_peer b (remove k a t).peers ≡ some q
    → (p : Peer) × (find_peer b t.peers ≡ some p) × ((q ≡ p) ⊎ (q ≡ remove_peer_type k p))
unfolding remove
found_before_remove k a b t q h = elim (Bool-cases (contains a (t.lists k))) [
  | inl c ↦ found_before k a b t.peers q (ground (arith, h, c))
  | inr c ↦ (q, ground (arith, h, c), inl refl)
]

find_peer_address :
    (a : IpEndPoint) (ps : List Peer) (p : Peer) → find_peer a ps ≡ some p → p.address ≡ a
unfolding find_peer
find_peer_address a [] p h = absurd (ground arith)
find_peer_address a (q ∷ qs) p h = ground (arith, equals-eq q.address a, find_peer_address a qs p)

-- A role in which a peer is not lost is none that the loop takes from it.
module _ (timeout : ℕ) (now : TimeVal) (p : Peer) where
  spared :
      (j : PeerType)
      → lost_in timeout now j p ≡ false
      → (dead_forward timeout now p ≡ true
          → (same_type successor j ≡ false) × (same_type long_nbr j ≡ false))
        × (dead_predecessor timeout now p ≡ true → same_type predecessor j ≡ false)
        × (dead_reverse timeout now p ≡ true → same_type rev_long_nbr j ≡ false)
  unfolding lost_in dead_forward dead_predecessor dead_reverse
  spared successor h = (λ d. absurd (ground (arith, h, d)), λ d. refl, λ d. refl)
  spared long_nbr h = (λ d. absurd (ground (arith, h, d)), λ d. refl, λ d. refl)
  spared predecessor h = (λ d. (refl, refl), λ d. absurd (ground (arith, h, d)), λ d. refl)
  spared rev_long_nbr h = (λ d. (refl, refl), λ d. refl, λ d. absurd (ground (arith, h, d)))

module _ (timeout : ℕ) (now : TimeVal) (j : PeerType) (b : IpEndPoint) where
  -- An address has a role, and its peer is not lost in it.
  pub record IsAlive (t : Table) : Type 0 where
    pub consistent : IsConsistent t
    pub listed : contains b (t.lists j) ≡ true
    pub heard : (q : Peer) → find_peer b t.peers ≡ some q → lost_in timeout now j q ≡ false

  remove-IsAlive :
      (k : PeerType) (a : IpEndPoint) (t : Table)
      → (same_type k j && equals a b) ≡ false
      → IsAlive t
      → IsAlive (remove k a t)
  remove-IsAlive k a t o v = record {
    consistent = remove-IsConsistent k a t v.consistent;
    listed = ground (arith, contains-remove k j a b t v.consistent, o, v.listed);
    heard = λ q e.
        let (p, found, same) = found_before_remove k a b t q e in
        let before = v.heard p found in
        elim same [
          | inl i ↦ ap (lost_in timeout now j) i ∙ before
          | inr i ↦
              ap (lost_in timeout now j) i ∙ lost_in-remove_peer_type timeout now j k p ∙ before
        ];
  }

  remove_if-IsAlive :
      (c : Bool) (k : PeerType) (a : IpEndPoint) (t : Table)
      → (same_type k j && equals a b) ≡ false
      → IsAlive t
      → IsAlive (remove_if c k a t)
  unfolding remove_if
  remove_if-IsAlive true k a t o v = remove-IsAlive k a t o v
  remove_if-IsAlive false k a t o v = v

  -- The loop takes no such role from the peer that the map has for an address.
  removals-IsAlive :
      (t : Table) (a : IpEndPoint) (p : Peer)
      → IsAlive t
      → find_peer a t.peers ≡ some p
      → RemovalsKeep IsAlive timeout now p
  unfolding remove_forward
  removals-IsAlive t a p v e = elim (Bool-cases (equals p.address b)) [
    | inr o ↦ (
      λ d u w.
          remove_if-IsAlive (p.types long_nbr) long_nbr p.address
            (remove_if (p.types successor) successor p.address u) (ground (arith, o))
            (remove_if-IsAlive (p.types successor) successor p.address u (ground (arith, o)) w),
      λ d u w. remove-IsAlive predecessor p.address u (ground (arith, o)) w,
      λ d u w. remove-IsAlive rev_long_nbr p.address u (ground (arith, o)) w,
    )
    | inl s ↦
        let at_b : find_peer b t.peers ≡ some p =
          ground (arith, find_peer_address a t.peers p e, equals-eq p.address b s, e) in
        let safe = spared timeout now p j (v.heard p at_b) in
        (
          λ d u w.
              remove_if-IsAlive (p.types long_nbr) long_nbr p.address
                (remove_if (p.types successor) successor p.address u) (ground (arith, (safe.0 d).1))
                (remove_if-IsAlive (p.types successor) successor p.address u
                  (ground (arith, (safe.0 d).0)) w),
          λ d u w. remove-IsAlive predecessor p.address u (ground (arith, safe.1 d)) w,
          λ d u w. remove-IsAlive rev_long_nbr p.address u (ground (arith, safe.2 d)) w,
        )
  ]

-- The check of the peers takes no role from a peer that is not lost in it: if the lists and the map
-- agree and the node goes on, the peer keeps the role and is not lost in it.
pub check_liveness-IsAlive :
    (timeout : ℕ) (now : TimeVal) (j : PeerType) (b : IpEndPoint) (h g : MemberHub)
    → IsAlive timeout now j b h.table
    → check_liveness timeout now h ≡ running g
    → IsAlive timeout now j b g.table
check_liveness-IsAlive timeout now j b h g v e = subst (Leaves (IsAlive timeout now j b)) e (
    check_liveness-Leaves (IsAlive timeout now j b) timeout now (removals-IsAlive timeout now j b) h
      v)
