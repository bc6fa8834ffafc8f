-- ===== src/Peer.antt =====
-- mercury/Peer.h and mercury/Peer.cpp: what a member of a hub keeps of another node. The bits of
-- `m_PeerType` are a function, and the settings and the clock are arguments.
pub mod Bounds
pub mod Pings
use distributed_games.Base.{
  ℕ, ◌+◌, ◌-◌, ◌/◌, ◌%◌, Bool, true, false, ◌||◌, ◌==◌, ltb, leb, if◌then◌else◌, Option, none, some,
  List, [], ◌∷◌, ◌++◌, length, drop, ℤ, pos, ltb_ℤ, pos_part, neg_part,
}
use distributed_games.Int32.{to_uint32}
use distributed_games.TimeVal.{TimeVal, time_none, sub_msec}
use distributed_games.Address.{IpEndPoint}
use distributed_games.Constraint.{NodeRange}
use distributed_games.Message.Ring.{LivenessPing}

pub data PeerType : Type 0 where
  successor predecessor long_nbr rev_long_nbr : PeerType

abbrev pub same_type : PeerType → PeerType → Bool
same_type successor successor = true
same_type predecessor predecessor = true
same_type long_nbr long_nbr = true
same_type rev_long_nbr rev_long_nbr = true
same_type _ _ = false

pub record PingInfo : Type 0 where
  pub time : TimeVal
  pub seqno : ℕ

pub record Peer : Type 0 where
  pub address : IpEndPoint
  pub range : NodeRange
  pub last_msg_time : TimeVal
  pub last_ping_sent : TimeVal
  pub last_successor_ping : TimeVal
  pub last_long_neighbor_ping : TimeVal
  pub rtt_samples : List ℕ
  pub sent_pings : List PingInfo
  pub seqno : ℕ
  pub types : PeerType → Bool

abbrev pub is_successor : Peer → Bool
is_successor p = p.types successor

abbrev pub ping_cache_size : ℕ
ping_cache_size = 10

abbrev pub max_rtt_samples : ℕ
max_rtt_samples = 20

-- The constructor.
unfoldable pub new_peer : TimeVal → IpEndPoint → NodeRange → Peer
new_peer now address range = record {
  address = address;
  range = range;
  last_msg_time = now;
  last_ping_sent = time_none;
  last_successor_ping = now;
  last_long_neighbor_ping = now;
  rtt_samples = [];
  sent_pings = [];
  seqno = 1;
  types = λ t. false;
}

unfoldable pub set_range : NodeRange → Peer → Peer
set_range range p = record p { range = range }

sum : List ℕ → ℕ
sum [] = 0
sum (x ∷ xs) = x + sum xs

-- The mean is a `double` in the source, cut off to an integer: with so few samples, the quotient.
unfoldable pub get_rtt_estimate : Peer → ℕ
unfolding sum
get_rtt_estimate p =
    if length p.rtt_samples == 0 then 0 else sum p.rtt_samples / length p.rtt_samples

unfoldable pub lost_pongs : ℕ → TimeVal → Peer → Bool
lost_pongs timeout now p = ltb_ℤ (pos timeout) (sub_msec now p.last_msg_time)

set_type : PeerType → Bool → Peer → Peer
set_type t b p = record p { types = λ u. if same_type t u then b else p.types u }

unfoldable pub add_peer_type : TimeVal → PeerType → Peer → Peer
unfolding set_type
add_peer_type now predecessor p = record (set_type predecessor true p) { last_successor_ping = now }
add_peer_type now rev_long_nbr p = record (set_type rev_long_nbr true p) {
  last_long_neighbor_ping = now;
}
add_peer_type now t p = set_type t true p

unfoldable pub remove_peer_type : PeerType → Peer → Peer
unfolding set_type
remove_peer_type t p = set_type t false p

-- `GetPeerType () != PEER_NONE`
abbrev pub has_type : Peer → Bool
has_type p =
    p.types successor || (p.types predecessor || (p.types long_nbr || p.types rev_long_nbr))

-- `none` is the failed ASSERT on the type.
unfoldable pub register_incoming_ping : PeerType → TimeVal → Peer → Option Peer
register_incoming_ping successor now p =
    some (record p { last_successor_ping = now; last_msg_time = now })
register_incoming_ping long_nbr now p =
    some (record p { last_long_neighbor_ping = now; last_msg_time = now })
register_incoming_ping _ now p = none

unfoldable pub get_last_ping_received : PeerType → Peer → Option TimeVal
get_last_ping_received successor p = some p.last_successor_ping
get_last_ping_received long_nbr p = some p.last_long_neighbor_ping
get_last_ping_received _ p = none

unfoldable pub lost_pings : ℕ → TimeVal → PeerType → Peer → Option Bool
lost_pings timeout now successor p = some (ltb_ℤ (pos timeout) (sub_msec now p.last_successor_ping))
lost_pings timeout now long_nbr p =
    some (ltb_ℤ (pos timeout) (sub_msec now p.last_long_neighbor_ping))
lost_pings timeout now _ p = none

unfoldable pub add_sample : ℕ → List ℕ → List ℕ
add_sample rtt samples =
    (if ltb max_rtt_samples (length samples) then drop 1 samples else samples) ++ rtt ∷ []

-- The loop over the sent pings: the time of the first with this number, and the others.
unfoldable pub match_ping : ℕ → List PingInfo → Option (TimeVal × List PingInfo)
match_ping seqno [] = none
match_ping seqno (i ∷ rest) =
    let later = match_ping seqno rest in
    if i.seqno == seqno
    then some (i.time, rest)
    else elim later [ none ↦ none | some (t, others) ↦ some (t, i ∷ others) ]

-- `UpdateRTTEstimate` for a pong with a number, received at a time.
unfoldable pub update_rtt_estimate : ℕ → TimeVal → Peer → Peer
unfolding add_sample
update_rtt_estimate seqno recv_time p = elim (match_ping seqno p.sent_pings) [
  | none ↦ p
  | some (sent, others) ↦ record p {
    rtt_samples = add_sample (to_uint32 (sub_msec recv_time sent)) p.rtt_samples;
    sent_pings = others;
  }
]

-- A pong with its range and number.
unfoldable pub handle_liveness_pong : TimeVal → TimeVal → NodeRange → ℕ → Peer → Peer
handle_liveness_pong now recv_time range seqno p =
    let q = record p { last_msg_time = now; range = range } in
    if seqno == 255 then q else update_rtt_estimate seqno recv_time q

unfoldable pub recvd_message : TimeVal → Peer → Peer
recvd_message now p = record p { last_msg_time = now }

unfoldable pub register_sent_ping : TimeVal → ℕ → Peer → Peer
register_sent_ping now seqno p = record p {
  sent_pings =
      (if leb ping_cache_size (length p.sent_pings) then drop 1 p.sent_pings else p.sent_pings)
      ++ record { time = now; seqno = seqno } ∷ [];
  last_ping_sent = now;
}

-- `m_Seqno++` of a byte, for the pings that are sample requests: the number, and the peer
-- afterwards. It does not step over 0xff.
unfoldable pub get_next_seqno : Peer → ℕ × Peer
get_next_seqno p = (p.seqno, record p { seqno = (p.seqno + 1) % 256 })

-- `m_Seqno++`, and once more past 0xff; the byte wraps.
unfoldable pub next_seqno : ℕ → ℕ
next_seqno s = let t = (s + 1) % 256 in if t == 255 then (t + 1) % 256 else t

-- The ping that is sent; the types are the bits of a byte.
unfoldable pub make_ping : ℕ → ℕ → IpEndPoint → NodeRange → Peer → LivenessPing
make_ping hub_id nonce own own_range p = record {
  heart_beat = record {
    header = record { type = 1; sender = own; hub_id = hub_id; hop_count = 0; nonce = nonce };
    range = own_range;
  };
  seqno = p.seqno;
  peertype = (if p.types successor then 1 else 0) + (if p.types long_nbr then 4 else 0);
}

-- The peer afterwards and the message for it. A node without a range sends none.
unfoldable pub send_liveness_ping :
    ℕ → ℕ → IpEndPoint → Option NodeRange → TimeVal → Peer → Peer × Option LivenessPing
unfolding make_ping next_seqno
send_liveness_ping hub_id nonce own none now p = (p, none)
send_liveness_ping hub_id nonce own (some own_range) now p =
    let ping = make_ping hub_id nonce own own_range p in
    (register_sent_ping now ping.seqno (record p { seqno = next_seqno p.seqno }), some ping)
