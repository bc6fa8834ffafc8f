-- ===== src/Hub/Sound.antt =====
-- The lists and the map of a member of a hub agree after its handlers of pings and pongs.
use distributed_games.Base.{
  ℕ, ◌≡◌, refl, ◌∙◌, Bool, true, false, not, ◌&&◌, ◌||◌, Option, none, some, List, [], ◌∷◌, arith,
  Bool-cases, Option-cases, inl, inr, eqb_ℤ,
}
use distributed_games.Value.{Value}
use distributed_games.TimeVal.{TimeVal}
use distributed_games.Address.{IpEndPoint}
use distributed_games.Constraint.{NodeRange}
use distributed_games.Constraint.{equals as equals_range}
use distributed_games.Message.Ring.{LivenessPing}
use distributed_games.Peer.{
  PeerType, Peer, successor, predecessor, long_nbr, rev_long_nbr, recvd_message,
  register_incoming_ping, handle_liveness_pong, update_rtt_estimate,
}
use distributed_games.Hub.Table.{Table, find_peer, contains, update_peer}
use distributed_games.Hub.Table.Finding.{find_peer-update_peer}
use distributed_games.Hub.Table.Consistent.{IsConsistent, add-IsConsistent, remove-IsConsistent}
use distributed_games.Hub.Member.Ordered.{sort_list-IsConsistent}
use distributed_games.Hub.Member.{
  MemberHub, Outcome, running, exited, fault, ◌>>=◌, update_sorted, add_predecessor, sort_if_ranged,
  less_peer, get_successor, get_predecessor,
}
use distributed_games.Hub.Liveness.{
  on_peer_death, remove_if, remove_from_lists, remove_peer, note_pong, receive_pong,
  is_successor_ping, is_long_neighbor_ping, admit_predecessor, answer_ping, register_ping, for_list,
}

-- A change of a peer that keeps its address and its types.
abbrev pub Keeps : (Peer → Peer) → Type 0
Keeps f = (p : Peer) → ((f p).address ≡ p.address) × ((k : PeerType) → (f p).types k ≡ p.types k)

pub update_peer-IsConsistent :
    (a : IpEndPoint) (f : Peer → Peer) (t : Table)
    → Keeps f
    → IsConsistent t
    → IsConsistent (record { peers = update_peer a f t.peers; lists = t.lists })
update_peer-IsConsistent a f t h v = record {
  listed = λ k b. elim (Option-cases (find_peer b t.peers)) [
    | inl n ↦ ground (arith, n, v.listed k b, find_peer-update_peer a b f t.peers (λ p. (h p).0))
    | inr (p, e) ↦
        ground
          (arith, e, v.listed k b, find_peer-update_peer a b f t.peers (λ p. (h p).0), (h p).1 k)
  ];
  distinct = v.distinct;
  kept = λ b. elim (Option-cases (find_peer b t.peers)) [
    | inl n ↦ ground (arith, n, find_peer-update_peer a b f t.peers (λ p. (h p).0))
    | inr (p, e) ↦ ground (
      arith,
      e,
      v.kept b,
      find_peer-update_peer a b f t.peers (λ p. (h p).0),
      (h p).1 successor,
      (h p).1 predecessor,
      (h p).1 long_nbr,
      (h p).1 rev_long_nbr,
    )
  ];
}

pub recvd_message-Keeps : (now : TimeVal) → Keeps (recvd_message now)
unfolding recvd_message
recvd_message-Keeps now p = (refl, λ k. refl)

pub register_ping-Keeps : (b : Bool) (k : PeerType) (now : TimeVal) → Keeps (register_ping b k now)
unfolding register_ping register_incoming_ping
register_ping-Keeps false k now p = (refl, λ j. refl)
register_ping-Keeps true successor now p = (refl, λ j. refl)
register_ping-Keeps true long_nbr now p = (refl, λ j. refl)
register_ping-Keeps true predecessor now p = (refl, λ j. refl)
register_ping-Keeps true rev_long_nbr now p = (refl, λ j. refl)

pub handle_liveness_pong-Keeps :
    (now recv_time : TimeVal) (r : NodeRange) (seqno : ℕ)
    → Keeps (handle_liveness_pong now recv_time r seqno)
unfolding handle_liveness_pong update_rtt_estimate
handle_liveness_pong-Keeps now recv_time r seqno p = (ground arith, λ k. ground arith)

pub Keeps-then : (f g : Peer → Peer) → Keeps f → Keeps g → Keeps (λ p. g (f p))
Keeps-then f g hf hg p = ((hg (f p)).0 ∙ (hf p).0, λ k. (hg (f p)).1 k ∙ (hf p).1 k)

pub for_list-IsConsistent :
    (xs : List IpEndPoint) (f : Peer → Peer) (t : Table)
    → Keeps f
    → IsConsistent t
    → IsConsistent (record { peers = for_list xs f t.peers; lists = t.lists })
unfolding for_list
for_list-IsConsistent [] f t h v = v
for_list-IsConsistent (a ∷ xs) f t h v =
    for_list-IsConsistent xs f (record { peers = update_peer a f t.peers; lists = t.lists }) h
      (update_peer-IsConsistent a f t h v)

pub sort_if_ranged-IsConsistent :
    (k : PeerType) (before : Value → Value → Value → Bool) (own : Option NodeRange) (t : Table)
    → IsConsistent t
    → IsConsistent (sort_if_ranged k before own t)
unfolding sort_if_ranged
sort_if_ranged-IsConsistent k before none t v = v
sort_if_ranged-IsConsistent k before (some r) t v = sort_list-IsConsistent k (before r.min) t v

pub remove_if-IsConsistent :
    (b : Bool) (k : PeerType) (a : IpEndPoint) (t : Table)
    → IsConsistent t
    → IsConsistent (remove_if b k a t)
unfolding remove_if
remove_if-IsConsistent true k a t v = remove-IsConsistent k a t v
remove_if-IsConsistent false k a t v = v

abbrev pub IsSound : MemberHub → Type 0
IsSound h = IsConsistent h.table

-- The hub is sound if the process goes on.
abbrev pub LeavesSound : Outcome MemberHub → Type 0
LeavesSound (running h) = IsSound h
LeavesSound exited = Unit {0}
LeavesSound fault = Unit {0}

pub on_peer_death-IsSound : (p : Peer) (h : MemberHub) → IsSound h → LeavesSound (on_peer_death p h)
unfolding on_peer_death
on_peer_death-IsSound p h v = elim (Option-cases (get_successor h)) [
  | inl n ↦ rw (n, on_peer_death) tt
  | inr (s, e) ↦ elim (Bool-cases (p.types long_nbr)) [
    | inl l ↦ rw (e, l, on_peer_death) v
    | inr l ↦ rw (e, l, on_peer_death) v
  ]
]

pub remove_from_lists-IsConsistent :
    (p : Peer) (a : IpEndPoint) (t : Table)
    → IsConsistent t
    → IsConsistent (remove_from_lists p a t)
unfolding remove_from_lists
remove_from_lists-IsConsistent p a t v =
    let t1 = remove_if (p.types successor) successor a t in
    let t2 = remove_if (p.types long_nbr) long_nbr a t1 in
    let t3 = remove_if (p.types predecessor) predecessor a t2 in
    let v1 = remove_if-IsConsistent (p.types successor) successor a t v in
    let v2 = remove_if-IsConsistent (p.types long_nbr) long_nbr a t1 v1 in
    let v3 = remove_if-IsConsistent (p.types predecessor) predecessor a t2 v2 in
    remove_if-IsConsistent (p.types rev_long_nbr) rev_long_nbr a t3 v3

pub update_sorted-IsSound : (h : MemberHub) → IsSound h → IsSound (update_sorted h)
unfolding update_sorted
update_sorted-IsSound h v = v

pub remove_peer-IsSound :
    (a : IpEndPoint) (h : MemberHub) → IsSound h → LeavesSound (remove_peer a h)
unfolding remove_peer
remove_peer-IsSound a h v = elim (Option-cases (find_peer a h.table.peers)) [
  | inl n ↦ rw (n, remove_peer) v
  | inr (p, e) ↦
      let t = remove_from_lists p a h.table in
      rw (e, remove_peer)
        (on_peer_death-IsSound
          (record p { types = λ k. p.types k && not (contains a (h.table.lists k)) })
          (update_sorted (record h { table = t }))
          (update_sorted-IsSound (record h { table = t })
            (remove_from_lists-IsConsistent p a h.table v)))
]

pub LeavesSound-then :
    (m : Outcome MemberHub) (f : MemberHub → MemberHub)
    → ((h : MemberHub) → IsSound h → IsSound (f h))
    → LeavesSound m
    → LeavesSound (m >>= λ h. running (f h))
LeavesSound-then (running h) f k v = k h v
LeavesSound-then exited f k v = tt
LeavesSound-then fault f k v = tt

pub note_pong-IsSound :
    (now recv_time : TimeVal) (from : IpEndPoint) (r : NodeRange) (seqno : ℕ) (p : Peer)
    (h : MemberHub)
    → IsSound h
    → IsSound (note_pong now recv_time from r seqno p h)
unfolding note_pong update_sorted
note_pong-IsSound now recv_time from r seqno p h v =
    let kept =
      update_peer-IsConsistent from (handle_liveness_pong now recv_time r seqno) h.table
        (handle_liveness_pong-Keeps now recv_time r seqno) v in
    let same = update_peer-IsConsistent from (λ q. q) h.table (λ q. (refl, λ k. refl)) v in
    elim (Bool-cases (p.types successor || p.types long_nbr)) [
      | inl e ↦ elim (Bool-cases (equals_range r p.range)) [
        | inl f ↦ rw (e, f) kept
        | inr f ↦ rw (e, f) kept
      ]
      | inr e ↦ elim (Bool-cases (equals_range r p.range)) [
        | inl f ↦ rw (e, f) same
        | inr f ↦ rw (e, f) same
      ]
    ]

pub receive_pong-IsSound :
    (now recv_time : TimeVal) (from : IpEndPoint) (r : NodeRange) (seqno : ℕ) (h : MemberHub)
    → IsSound h
    → LeavesSound (receive_pong now recv_time from r seqno h)
unfolding receive_pong
receive_pong-IsSound now recv_time from r seqno h v =
    elim (Option-cases (find_peer from h.table.peers)) [
      | inl n ↦ rw (n, receive_pong) v
      | inr (p, e) ↦
          elim (Bool-cases (not (eqb_ℤ r.min p.range.min) && not (eqb_ℤ r.max p.range.max))) [
            | inl f ↦
                rw (e, f, receive_pong)
                  (LeavesSound-then (remove_peer from h) update_sorted update_sorted-IsSound
                    (remove_peer-IsSound from h v))
            | inr f ↦ rw (e, f, receive_pong) (note_pong-IsSound now recv_time from r seqno p h v)
          ]
    ]

pub add_predecessor-IsSound :
    (now : TimeVal) (a : IpEndPoint) (r : NodeRange) (h : MemberHub)
    → IsSound h
    → IsSound (add_predecessor now a r h)
unfolding add_predecessor update_sorted
add_predecessor-IsSound now a r h v =
    sort_if_ranged-IsConsistent predecessor less_peer h.range _
      (add-IsConsistent now predecessor a r false h.table v)

pub admit_predecessor-IsSound :
    (now : TimeVal) (from : IpEndPoint) (ping : LivenessPing) (h : MemberHub)
    → IsSound h
    → IsSound (admit_predecessor now from ping h)
unfolding admit_predecessor
admit_predecessor-IsSound now from ping h v = elim (Option-cases (get_predecessor h)) [
  | inl n ↦ rw (n, admit_predecessor) v
  | inr (p, e) ↦ elim (Bool-cases (is_successor_ping ping)) [
    | inl s ↦
        rw (e, s, admit_predecessor) (add_predecessor-IsSound now from ping.heart_beat.range h v)
    | inr s ↦ rw (e, s, admit_predecessor) v
  ]
]

pub answer_ping-IsSound :
    (now : TimeVal) (hub_id nonce : ℕ) (from : IpEndPoint) (ping : LivenessPing) (h : MemberHub)
    → IsSound h
    → IsSound (answer_ping now hub_id nonce from ping h).0
unfolding answer_ping
answer_ping-IsSound now hub_id nonce from ping h v =
    elim (Option-cases (find_peer from h.table.peers)) [
      | inl n ↦ rw (n, answer_ping) v
      | inr (p, e) ↦ elim (Bool-cases (not (p.types rev_long_nbr) && not (p.types predecessor))) [
        | inl s ↦ rw (e, s, answer_ping) v
        | inr s ↦
            rw (e, s, answer_ping)
              (update_peer-IsConsistent from _ h.table
                (Keeps-then (register_ping (is_successor_ping ping) successor now)
                  (register_ping (is_long_neighbor_ping ping) long_nbr now)
                  (register_ping-Keeps (is_successor_ping ping) successor now)
                  (register_ping-Keeps (is_long_neighbor_ping ping) long_nbr now))
                v)
      ]
    ]
