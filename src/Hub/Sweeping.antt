-- ===== src/Hub/Sweeping.antt =====
-- The loop of `CheckLiveness`: what it keeps, and whom it drops.
use distributed_games.Base.{
  ℕ, ◌+◌, ◌≡◌, Bool, true, some, List, [], ◌∷◌, length, map, ◌-◌, leb, ◌==◌, zero, suc, Bool-cases,
  Option-cases, inl, inr,
}
use distributed_games.TimeVal.{TimeVal}
use distributed_games.Address.{IpEndPoint, equals}
use distributed_games.Peer.{Peer, successor, predecessor, long_nbr, rev_long_nbr}
use distributed_games.Hub.Table.{Table, find_peer, remove}
use distributed_games.Hub.Table.Consistent.{IsConsistent, remove-IsConsistent}
use distributed_games.Hub.Member.{
  MemberHub, Outcome, running, exited, fault, ◌>>=◌, Status, joined, get_successor,
}
use distributed_games.Hub.Liveness.{
  on_peer_death, remove_if, remove_forward, sweep_role, sweep_peer, sweep, sweep_forward,
  sweep_predecessor, sweep_reverse, settle, dead_forward, dead_predecessor, dead_reverse,
  check_liveness, Sweep,
}
use distributed_games.Hub.Sound.{remove_if-IsConsistent}

-- What holds of the peers and lists of a hub, and of the hub that an operation leaves, if any.
module _ (Q : Table → Type 0) where
  abbrev pub Leaves : Outcome MemberHub → Type 0
  Leaves (running h) = Q h.table
  Leaves exited = Unit {0}
  Leaves fault = Unit {0}

  abbrev LeavesSwept : Outcome Sweep → Type 0
  LeavesSwept (running s) = Q s.hub.table
  LeavesSwept exited = Unit {0}
  LeavesSwept fault = Unit {0}

  on_peer_death-Leaves : (p : Peer) (h : MemberHub) → Q h.table → Leaves (on_peer_death p h)
  unfolding on_peer_death
  on_peer_death-Leaves p h v = elim (Option-cases (get_successor h)) [
    | inl n ↦ rw (n, on_peer_death) tt
    | inr (s, e) ↦ elim (Bool-cases (p.types long_nbr)) [
      | inl l ↦ rw (e, l, on_peer_death) v
      | inr l ↦ rw (e, l, on_peer_death) v
    ]
  ]

  moved-LeavesSwept :
      (m : Outcome MemberHub) (n : ℕ)
      → Leaves m
      → LeavesSwept (m >>= (λ h. running (record { hub = h; moved = n })))
  moved-LeavesSwept (running h) n v = v
  moved-LeavesSwept exited n v = tt
  moved-LeavesSwept fault n v = tt

  -- A block of the loop, if its removal keeps the property where it is made.
  sweep_role-LeavesSwept :
      (p : Peer) (behind : ℕ) (dead : Bool) (removal : Table → Table) (s : Sweep)
      → (dead ≡ true → (t : Table) → Q t → Q (removal t))
      → Q s.hub.table
      → LeavesSwept (sweep_role p behind dead removal s)
  unfolding sweep_role
  sweep_role-LeavesSwept p behind dead removal s keep v = elim (Bool-cases dead) [
    | inr e ↦ rw e v
    | inl e ↦ elim (Bool-cases (leb s.moved behind)) [
      | inr f ↦ rw (e, f) tt
      | inl f ↦
          rw (e, f)
            (moved-LeavesSwept (on_peer_death p (record s.hub { table = removal s.hub.table }))
              (s.moved + 1)
              (on_peer_death-Leaves p (record s.hub { table = removal s.hub.table })
                (keep e s.hub.table v)))
    ]
  ]

  LeavesSwept-then :
      (m : Outcome Sweep) (f : Sweep → Outcome Sweep)
      → ((s : Sweep) → Q s.hub.table → LeavesSwept (f s))
      → LeavesSwept m
      → LeavesSwept (m >>= f)
  LeavesSwept-then (running s) f k v = k s v
  LeavesSwept-then exited f k v = tt
  LeavesSwept-then fault f k v = tt

  settle-LeavesSwept : (s : Sweep) → Q s.hub.table → LeavesSwept (settle s)
  unfolding settle
  settle-LeavesSwept s v = elim (Bool-cases (s.moved == 0)) [ inl e ↦ rw e v | inr e ↦ rw e v ]

  Swept-then :
      (m : Outcome Sweep) (f : Sweep → Outcome MemberHub)
      → ((s : Sweep) → Q s.hub.table → Leaves (f s))
      → LeavesSwept m
      → Leaves (m >>= f)
  Swept-then (running s) f k v = k s v
  Swept-then exited f k v = tt
  Swept-then fault f k v = tt

  module _ (timeout : ℕ) (now : TimeVal) where
    -- The removals that the loop makes for a peer keep the property.
    abbrev pub RemovalsKeep : Peer → Type 0
    RemovalsKeep p =
        (dead_forward timeout now p ≡ true → (t : Table) → Q t → Q (remove_forward p t))
        × (dead_predecessor timeout now p ≡ true
            → (t : Table) → Q t
            → Q (remove predecessor p.address t))
        × (dead_reverse timeout now p ≡ true
            → (t : Table) → Q t
            → Q (remove rev_long_nbr p.address t))

    sweep_peer-LeavesSwept :
        (p : Peer) (behind : ℕ) (h : MemberHub)
        → RemovalsKeep p
        → Q h.table
        → LeavesSwept (sweep_peer timeout now p behind h)
    unfolding sweep_peer sweep_forward sweep_predecessor sweep_reverse
    sweep_peer-LeavesSwept p behind h k v =
        let start : Sweep = record { hub = h; moved = 0 } in
        let first =
          sweep_role-LeavesSwept p behind (dead_forward timeout now p) (remove_forward p) start k.0
            v in
        let second =
          LeavesSwept-then (sweep_forward timeout now p behind start)
            (sweep_predecessor timeout now p behind)
            (λ s w.
              sweep_role-LeavesSwept _ behind (dead_predecessor timeout now p)
                (remove predecessor p.address) s k.1 w)
            first in
        let third =
          LeavesSwept-then _ (sweep_reverse timeout now p behind)
            (λ s w.
              sweep_role-LeavesSwept _ behind (dead_reverse timeout now p)
                (remove rev_long_nbr p.address) s k.2 w)
            second in
        LeavesSwept-then _ settle settle-LeavesSwept third

    module _
        (keep : (t : Table) (a : IpEndPoint) (p : Peer)
          → Q t
          → find_peer a t.peers ≡ some p
          → RemovalsKeep p) where
      sweep-Leaves :
          (skip : ℕ) (keys : List IpEndPoint) (h : MemberHub)
          → Q h.table
          → Leaves (sweep timeout now skip keys h)
      unfolding sweep
      sweep-Leaves zero [] h v = v
      sweep-Leaves (suc skip) [] h v = v
      sweep-Leaves (suc skip) (a ∷ keys) h v = sweep-Leaves skip keys h v
      sweep-Leaves zero (a ∷ keys) h v = elim (Option-cases (find_peer a h.table.peers)) [
        | inl n ↦ rw (n, sweep) tt
        | inr (p, e) ↦ elim (Bool-cases (equals a h.address)) [
          | inl o ↦ rw (e, o, sweep) (sweep-Leaves zero keys h v)
          | inr o ↦
              rw (e, o, sweep)
                (Swept-then (sweep_peer timeout now p (length keys) h)
                  (λ s. sweep timeout now (s.moved - 1) keys s.hub)
                  (λ s w. sweep-Leaves (s.moved - 1) keys s.hub w)
                  (sweep_peer-LeavesSwept p (length keys) h (keep h.table a p v e) v))
        ]
      ]

      pub check_liveness-Leaves :
          (h : MemberHub) → Q h.table → Leaves (check_liveness timeout now h)
      unfolding check_liveness
      check_liveness-Leaves h v = by_status h.status
        where
          by_status :
              (s : Status)
              → Leaves (elim s [
                | joined ↦ sweep timeout now 0 (map (λ p. p.address) h.table.peers) h
                | _ ↦ running h
              ])
          by_status joined = sweep-Leaves 0 (map (λ p. p.address) h.table.peers) h v
          by_status s = v

pub remove_forward-IsConsistent :
    (p : Peer) (t : Table) → IsConsistent t → IsConsistent (remove_forward p t)
unfolding remove_forward
remove_forward-IsConsistent p t c =
    remove_if-IsConsistent (p.types long_nbr) long_nbr p.address
      (remove_if (p.types successor) successor p.address t)
      (remove_if-IsConsistent (p.types successor) successor p.address t c)

pub check_liveness-IsConsistent :
    (timeout : ℕ) (now : TimeVal) (h : MemberHub)
    → IsConsistent h.table
    → Leaves IsConsistent (check_liveness timeout now h)
check_liveness-IsConsistent timeout now h v =
    check_liveness-Leaves IsConsistent timeout now
      (λ t a p c e. (
        λ d. remove_forward-IsConsistent p,
        λ d. remove-IsConsistent predecessor p.address,
        λ d. remove-IsConsistent rev_long_nbr p.address,
      ))
      h v
