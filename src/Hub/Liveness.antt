-- ===== src/Hub/Liveness.antt =====
-- mercury/Hub.cpp and `LinkMaintainer::OnPeerDeath`: pings, pongs, and what happens when a peer is
-- taken for dead.
use distributed_games.Base.{
  ℕ, zero, suc, ◌+◌, ◌-◌, ◌/◌, ◌%◌, Bool, true, false, not, ◌&&◌, ◌||◌, ◌==◌, leb, leb_ℤ, eqb_ℤ,
  pos, if◌then◌else◌, Option, none, some, List, [], ◌∷◌, length, map,
}
use distributed_games.TimeVal.{TimeVal, sub_msec}
use distributed_games.Address.{IpEndPoint, equals}
use distributed_games.Constraint.{NodeRange, range_none}
use distributed_games.Constraint
use distributed_games.Message.Ring.{LivenessPing}
use distributed_games.Peer.{
  PeerType, Peer, same_type, successor, predecessor, long_nbr, rev_long_nbr, lost_pongs, lost_pings,
  register_incoming_ping, handle_liveness_pong, recvd_message,
}
use distributed_games.Hub.Table.{Table, find_peer, contains, update_peer, remove, clear}
use distributed_games.Hub.Member.{
  MemberHub, Outcome, running, exited, fault, ◌>>=◌, joined, unjoined, update_sorted,
  get_predecessor, get_successor, add_predecessor,
}

-- `LinkMaintainer::OnPeerDeath` for a peer as it is when it is passed.
unfoldable pub on_peer_death : Peer → MemberHub → Outcome MemberHub
on_peer_death p h = elim (get_successor h) [
  | none ↦ exited
  | some s ↦ running (if p.types long_nbr then record h { repairs = h.repairs + 1 } else h)
]

unfoldable pub remove_if : Bool → PeerType → IpEndPoint → Table → Table
remove_if b k a t = if b then remove k a t else t

-- The removal of a peer from the lists of its types.
unfoldable pub remove_from_lists : Peer → IpEndPoint → Table → Table
remove_from_lists p a t = remove_if (p.types rev_long_nbr) rev_long_nbr a (
    remove_if (p.types predecessor) predecessor a
      (remove_if (p.types long_nbr) long_nbr a (remove_if (p.types successor) successor a t)))

-- `RemovePeer`: the peer that it reports has lost the types of the lists that it was in.
unfoldable pub remove_peer : IpEndPoint → MemberHub → Outcome MemberHub
remove_peer a h = elim (find_peer a h.table.peers) [
  | none ↦ running h
  | some p ↦
      on_peer_death (record p { types = λ k. p.types k && not (contains a (h.table.lists k)) })
        (update_sorted (record h { table = remove_from_lists p a h.table }))
]

-- A pong of a peer whose range keeps one of its ends.
unfoldable pub note_pong :
    TimeVal → TimeVal → IpEndPoint → NodeRange → ℕ → Peer → MemberHub → MemberHub
note_pong now recv_time from range seqno p h =
    let f =
      if p.types successor || p.types long_nbr
      then handle_liveness_pong now recv_time range seqno
      else λ q. q in
    let g = record h {
      table = record { peers = update_peer from f h.table.peers; lists = h.table.lists };
    } in
    if Constraint.equals range p.range then g else update_sorted g

-- `HandleLivenessPong` of a pong with a range and a number, received at a time.
unfoldable pub receive_pong :
    TimeVal → TimeVal → IpEndPoint → NodeRange → ℕ → MemberHub → Outcome MemberHub
receive_pong now recv_time from range seqno h = elim (find_peer from h.table.peers) [
  | none ↦ running h
  | some p ↦
      if not (eqb_ℤ range.min p.range.min) && not (eqb_ℤ range.max p.range.max)
      then remove_peer from h >>= (λ g. running (update_sorted g))
      else running (note_pong now recv_time from range seqno p h)
]

abbrev pub is_successor_ping : LivenessPing → Bool
is_successor_ping m = m.peertype % 2 == 1

abbrev pub is_long_neighbor_ping : LivenessPing → Bool
is_long_neighbor_ping m = m.peertype / 4 % 2 == 1

unfoldable pub register_ping : Bool → PeerType → TimeVal → Peer → Peer
register_ping b k now p =
    if b then elim (register_incoming_ping k now p) [ none ↦ p | some q ↦ q ] else p

-- The pong for a ping.
make_pong : ℕ → ℕ → ℕ → MemberHub → LivenessPing
make_pong hub_id nonce seqno h = record {
  heart_beat = record {
    header = record { type = 2; sender = h.address; hub_id = hub_id; hop_count = 0; nonce = nonce };
    range = elim h.range [ none ↦ range_none | some r ↦ r ];
  };
  seqno = seqno;
  peertype = 0;
}

-- A ping to a successor comes from a predecessor; the first predecessor is not learnt so.
unfoldable pub admit_predecessor : TimeVal → IpEndPoint → LivenessPing → MemberHub → MemberHub
admit_predecessor now from ping h = elim (get_predecessor h) [
  | none ↦ h
  | some p ↦ if is_successor_ping ping then add_predecessor now from ping.heart_beat.range h else h
]

-- The answer to a ping of a peer that is known to point here.
unfoldable pub answer_ping :
    TimeVal → ℕ → ℕ → IpEndPoint → LivenessPing → MemberHub → MemberHub × Option LivenessPing
unfolding make_pong
answer_ping now hub_id nonce from ping h = elim (find_peer from h.table.peers) [
  | none ↦ (h, none)
  | some p ↦ if not (p.types rev_long_nbr) && not (p.types predecessor) then (h, none) else (
    record h {
      table = record {
        peers =
            update_peer from
              (λ q.
                register_ping (is_long_neighbor_ping ping) long_nbr now
                  (register_ping (is_successor_ping ping) successor now q))
              h.table.peers;
        lists = h.table.lists;
      };
    },
    some (make_pong hub_id nonce ping.seqno h),
  )
]

-- `HandleLivenessPing`: the hub afterwards, and the pong.
unfoldable pub receive_ping :
    TimeVal → ℕ → ℕ → IpEndPoint → LivenessPing → MemberHub → MemberHub × Option LivenessPing
receive_ping now hub_id nonce from ping h =
    answer_ping now hub_id nonce from ping (admit_predecessor now from ping h)

-- The hub and how far the iterator went.
pub record Sweep : Type 0 where
  pub hub : MemberHub
  pub moved : ℕ

-- How a peer counts as dead in its roles.
module _ (timeout : ℕ) (now : TimeVal) (p : Peer) where
  unfoldable pub dead_forward : Bool
  dead_forward = (p.types successor || p.types long_nbr) && lost_pongs timeout now p

  unfoldable pub dead_predecessor : Bool
  dead_predecessor =
      p.types predecessor && elim (lost_pings timeout now successor p) [ none ↦ false | some b ↦ b ]

  unfoldable pub dead_reverse : Bool
  dead_reverse =
      p.types rev_long_nbr && elim (lost_pings timeout now long_nbr p) [ none ↦ false | some b ↦ b ]

-- One of the three blocks of the loop, with the number of entries behind that of the peer. The
-- iterator is copied and moved first, which is undefined if it is past the last entry.
unfoldable pub sweep_role : Peer → ℕ → Bool → (Table → Table) → Sweep → Outcome Sweep
sweep_role p behind dead removal s =
    if dead
    then if leb s.moved behind
      then on_peer_death p (record s.hub { table = removal s.hub.table })
        >>= (λ h. running (record { hub = h; moved = s.moved + 1 }))
      else fault
    else running s

-- The peer that the later blocks copy: the first, if it ran, has taken these types from it.
after_forward : Bool → Peer → Peer
after_forward dead p = record p {
  types = λ k. p.types k && not (dead && (same_type successor k || same_type long_nbr k));
}

-- What the first block takes the peer from.
unfoldable pub remove_forward : Peer → Table → Table
remove_forward p t =
    remove_if (p.types long_nbr) long_nbr p.address
      (remove_if (p.types successor) successor p.address t)

-- The three blocks, for a successor or long neighbour, a predecessor and a reverse long neighbour.
unfoldable pub sweep_forward : ℕ → TimeVal → Peer → ℕ → Sweep → Outcome Sweep
sweep_forward timeout now p behind =
    sweep_role p behind (dead_forward timeout now p) (remove_forward p)

unfoldable pub sweep_predecessor : ℕ → TimeVal → Peer → ℕ → Sweep → Outcome Sweep
unfolding after_forward
sweep_predecessor timeout now p behind =
    sweep_role (after_forward (dead_forward timeout now p) p) behind
      (dead_predecessor timeout now p) (remove predecessor p.address)

unfoldable pub sweep_reverse : ℕ → TimeVal → Peer → ℕ → Sweep → Outcome Sweep
unfolding after_forward
sweep_reverse timeout now p behind =
    sweep_role (after_forward (dead_forward timeout now p) p) behind (dead_reverse timeout now p)
      (remove rev_long_nbr p.address)

-- Without a block that ran, the iterator moves at the end.
unfoldable pub settle : Sweep → Outcome Sweep
settle s = running (if s.moved == 0 then record { hub = s.hub; moved = 1 } else s)

unfoldable pub sweep_peer : ℕ → TimeVal → Peer → ℕ → MemberHub → Outcome Sweep
sweep_peer timeout now p behind h =
    sweep_forward timeout now p behind (record { hub = h; moved = 0 })
    >>= sweep_predecessor timeout now p behind
    >>= sweep_reverse timeout now p behind
    >>= settle

-- The loop over the addresses of the map; `skip` of them are passed over because the iterator has
-- moved on already.
unfoldable pub sweep : ℕ → TimeVal → ℕ → List IpEndPoint → MemberHub → Outcome MemberHub
sweep timeout now (suc skip) (a ∷ keys) h = sweep timeout now skip keys h
sweep timeout now skip [] h = running h
sweep timeout now zero (a ∷ keys) h = elim (find_peer a h.table.peers) [
  | none ↦ fault
  | some p ↦ if equals a h.address then sweep timeout now 0 keys h else do
    s ← sweep_peer timeout now p (length keys) h
    sweep timeout now (s.moved - 1) keys s.hub
]

-- `CheckLiveness`
unfoldable pub check_liveness : ℕ → TimeVal → MemberHub → Outcome MemberHub
check_liveness timeout now h = elim h.status [
  | joined ↦ sweep timeout now 0 (map (λ p. p.address) h.table.peers) h
  | _ ↦ running h
]

-- The peers that `PingPeers` hands to the timer that pings them.
pub peers_to_ping : ℕ → TimeVal → IpEndPoint → List Peer → List Peer
peers_to_ping interval now own [] = []
peers_to_ping interval now own (p ∷ ps) =
    let rest = peers_to_ping interval now own ps in
    if not (p.types successor) && not (p.types long_nbr)
    then rest
    else if equals p.address own
    then rest
    else if leb_ℤ (pos interval) (sub_msec now p.last_ping_sent)
    then p ∷ rest
    else rest

-- A change of the peers of a list.
unfoldable pub for_list : List IpEndPoint → (Peer → Peer) → List Peer → List Peer
for_list [] f ps = ps
for_list (a ∷ xs) f ps = for_list xs f (update_peer a f ps)

-- `ForcePeerRefresh`
unfoldable pub force_peer_refresh : TimeVal → MemberHub → MemberHub
unfolding for_list register_ping
force_peer_refresh now h =
    let t = h.table in
    record h {
      table = record {
        peers = for_list (t.lists rev_long_nbr) (register_ping true successor now) (
            for_list (t.lists predecessor) (register_ping true successor now) (
              for_list (t.lists long_nbr) (recvd_message now)
                (for_list (t.lists successor) (recvd_message now) t.peers)));
        lists = t.lists;
      };
    }

-- The peers that `PrepareLeave` sends a link break.
pub peers_to_break : Option Peer → Option Peer → List Peer → List IpEndPoint
peers_to_break succ pred [] = []
peers_to_break succ pred (p ∷ ps) =
    let rest = peers_to_break succ pred ps in
    if elim succ [ none ↦ false | some s ↦ equals p.address s.address ]
    then rest
    else if elim pred [ none ↦ false | some q ↦ equals p.address q.address ]
    then rest
    else if p.types predecessor || p.types rev_long_nbr
    then p.address ∷ rest
    else rest

-- `PrepareLeave`: the hub that is left, and who is told.
unfoldable pub prepare_leave : MemberHub → MemberHub × List IpEndPoint
prepare_leave h =
    let t = clear predecessor (clear successor (clear rev_long_nbr (clear long_nbr h.table))) in
    (
      record h { table = t; sorted = []; status = unjoined; range = none },
      peers_to_break (get_successor h) (get_predecessor h) h.table.peers,
    )
