-- ===== src/Peer/Bounds.antt =====
-- What holds of a peer after any sequence of its operations.
use distributed_games.Base.{
  ℕ, ◌≤◌, ◌<◌, ◌≡◌, ◌==◌, inl, inr, Option, none, some, List, [], ◌∷◌, ◌++◌, length, drop,
  length-append, length-drop, arith, leb, Bool-cases, Option-cases,
}
use distributed_games.TimeVal.{TimeVal}
use distributed_games.Address.{IpEndPoint}
use distributed_games.Constraint.{NodeRange}
use distributed_games.Message.Ring.{LivenessPing}
use distributed_games.Peer.{
  PeerType, PingInfo, Peer, new_peer, set_range, add_peer_type, remove_peer_type, recvd_message,
  register_incoming_ping, match_ping, add_sample, update_rtt_estimate, handle_liveness_pong,
  register_sent_ping, next_seqno, get_next_seqno, send_liveness_ping, make_ping, successor,
  predecessor, long_nbr, rev_long_nbr,
}

abbrev pub IsNumbered : List PingInfo → Type 0
IsNumbered [] = Unit {0}
IsNumbered (i ∷ is) = (i.seqno < 256) × IsNumbered is

pub record IsValid (p : Peer) : Type 0 where
  pub seqno : p.seqno < 256
  pub pings : length p.sent_pings ≤ 10
  pub samples : length p.rtt_samples ≤ 21
  pub numbered : IsNumbered p.sent_pings

-- One operation on a peer, with what the clock, the network and the hub supply.
pub data Step : Peer → Peer → Type 0 where
  ranged : (p : Peer) (r : NodeRange) → Step p (set_range r p)
  typed : (p : Peer) (now : TimeVal) (t : PeerType) → Step p (add_peer_type now t p)
  untyped : (p : Peer) (t : PeerType) → Step p (remove_peer_type t p)
  heard : (p : Peer) (now : TimeVal) → Step p (recvd_message now p)
  pinged :
      (p q : Peer) (now : TimeVal) (t : PeerType)
      → register_incoming_ping t now p ≡ some q
      → Step p q
  ponged :
      (p : Peer) (now recv_time : TimeVal) (r : NodeRange) (seqno : ℕ)
      → Step p (handle_liveness_pong now recv_time r seqno p)
  pings :
      (p : Peer) (hub_id nonce : ℕ) (own : IpEndPoint) (r : Option NodeRange) (now : TimeVal)
      → Step p (send_liveness_ping hub_id nonce own r now p).0
  numbers : (p : Peer) → Step p (get_next_seqno p).1
  -- the number of a sample request that serves as a ping, any byte
  registers :
      (p : Peer) (now : TimeVal) (seqno : ℕ) → seqno < 256 → Step p (register_sent_ping now seqno p)

pub data Reach (p : Peer) : Peer → Type 0 where
  here : Reach p p
  next : {q r : Peer} → Reach p q → Step q r → Reach p r

new_peer-IsValid : (now : TimeVal) (a : IpEndPoint) (r : NodeRange) → IsValid (new_peer now a r)
unfolding new_peer
new_peer-IsValid now a r = ground arith

IsNumbered-drop : (is : List PingInfo) → IsNumbered is → IsNumbered (drop 1 is)
IsNumbered-drop [] h = tt
IsNumbered-drop (i ∷ is) h = h.1

IsNumbered-append : (is js : List PingInfo) → IsNumbered is → IsNumbered js → IsNumbered (is ++ js)
IsNumbered-append [] js h k = k
IsNumbered-append (i ∷ is) js h k = (h.0, IsNumbered-append is js h.1 k)

register_sent_ping-IsValid :
    (now : TimeVal) (seqno : ℕ) (p : Peer)
    → seqno < 256
    → IsValid p
    → IsValid (register_sent_ping now seqno p)
unfolding register_sent_ping
register_sent_ping-IsValid now seqno p h v = elim (Bool-cases (leb 10 (length p.sent_pings))) [
  | inl full ↦
      rw (full, register_sent_ping)
        (record {
          seqno = v.seqno;
          pings = omega (
            arith,
            length-append (drop 1 p.sent_pings) (record { time = now; seqno = seqno } ∷ []),
            length-drop 1 p.sent_pings,
            v.pings,
          );
          samples = v.samples;
          numbered =
              IsNumbered-append (drop 1 p.sent_pings) _ (IsNumbered-drop p.sent_pings v.numbered)
                (h, tt);
        })
  | inr room ↦
      let few : length p.sent_pings ≤ 9 = ground arith in
      rw (room, register_sent_ping)
        (record {
          seqno = v.seqno;
          pings =
              omega (
                arith,
                length-append p.sent_pings (record { time = now; seqno = seqno } ∷ []),
                few,
              );
          samples = v.samples;
          numbered = IsNumbered-append p.sent_pings _ v.numbered (h, tt);
        })
]

next_seqno-lt : (s : ℕ) → next_seqno s < 255
unfolding next_seqno
next_seqno-lt s = ground arith

send_liveness_ping-IsValid :
    (hub_id nonce : ℕ) (own : IpEndPoint) (r : Option NodeRange) (now : TimeVal) (p : Peer)
    → IsValid p
    → IsValid (send_liveness_ping hub_id nonce own r now p).0
unfolding send_liveness_ping
send_liveness_ping-IsValid hub_id nonce own none now p v = v
send_liveness_ping-IsValid hub_id nonce own (some r) now p v =
    register_sent_ping-IsValid now p.seqno (record p { seqno = next_seqno p.seqno }) v.seqno
      (record {
        seqno = omega (arith, next_seqno-lt p.seqno);
        pings = v.pings;
        samples = v.samples;
        numbered = v.numbered;
      })

match_ping-bounds :
    (seqno : ℕ) (is : List PingInfo) (t : TimeVal) (js : List PingInfo)
    → match_ping seqno is ≡ some (t, js)
    → IsNumbered is
    → IsNumbered js × (length js ≤ length is)
unfolding match_ping
match_ping-bounds seqno [] t js e h = absurd (ground arith)
match_ping-bounds seqno (i ∷ is) t js e h = elim (Option-cases (match_ping seqno is)) [
  | inl n ↦ ground (arith, n)
  | inr (r, m) ↦ ground (arith, m, match_ping-bounds seqno is r.0 r.1 m h.1)
]

add_sample-bound :
    (rtt : ℕ) (samples : List ℕ) → length samples ≤ 21 → length (add_sample rtt samples) ≤ 21
unfolding add_sample
add_sample-bound rtt samples h = ground (
  arith,
  length-append samples (rtt ∷ []),
  length-append (drop 1 samples) (rtt ∷ []),
  length-drop 1 samples,
)

update_rtt_estimate-IsValid :
    (seqno : ℕ) (recv_time : TimeVal) (p : Peer)
    → IsValid p
    → IsValid (update_rtt_estimate seqno recv_time p)
unfolding update_rtt_estimate
update_rtt_estimate-IsValid seqno recv_time p v =
    elim (Option-cases (match_ping seqno p.sent_pings)) [
      | inl n ↦ rw (n, update_rtt_estimate) v
      | inr (r, m) ↦
          let left = match_ping-bounds seqno p.sent_pings r.0 r.1 m v.numbered in
          rw (m, update_rtt_estimate)
            (record {
              seqno = v.seqno;
              pings = omega (arith, left.1, v.pings);
              samples = add_sample-bound _ p.rtt_samples v.samples;
              numbered = left.0;
            })
    ]

handle_liveness_pong-IsValid :
    (now recv_time : TimeVal) (r : NodeRange) (seqno : ℕ) (p : Peer)
    → IsValid p
    → IsValid (handle_liveness_pong now recv_time r seqno p)
unfolding handle_liveness_pong
handle_liveness_pong-IsValid now recv_time r seqno p v =
    let q : Peer = record p { last_msg_time = now; range = r } in
    let valid : IsValid q = record {
      seqno = v.seqno;
      pings = v.pings;
      samples = v.samples;
      numbered = v.numbered;
    } in
    elim (Bool-cases (seqno == 255)) [
      | inl e ↦ rw (e, handle_liveness_pong) valid
      | inr e ↦ rw (e, handle_liveness_pong) (update_rtt_estimate-IsValid seqno recv_time q valid)
    ]

register_incoming_ping-IsValid :
    (now : TimeVal) (t : PeerType) (p q : Peer)
    → register_incoming_ping t now p ≡ some q
    → IsValid p
    → IsValid q
unfolding register_incoming_ping
register_incoming_ping-IsValid now successor p q e v = ground arith
register_incoming_ping-IsValid now long_nbr p q e v = ground arith
register_incoming_ping-IsValid now predecessor p q e v = absurd (ground arith)
register_incoming_ping-IsValid now rev_long_nbr p q e v = absurd (ground arith)

add_peer_type-IsValid :
    (now : TimeVal) (t : PeerType) (p : Peer) → IsValid p → IsValid (add_peer_type now t p)
unfolding add_peer_type
add_peer_type-IsValid now successor p v = ground arith
add_peer_type-IsValid now long_nbr p v = ground arith
add_peer_type-IsValid now predecessor p v = ground arith
add_peer_type-IsValid now rev_long_nbr p v = ground arith

Step-IsValid : {p q : Peer} → Step p q → IsValid p → IsValid q
unfolding set_range remove_peer_type recvd_message get_next_seqno
Step-IsValid (ranged p r) v = ground arith
Step-IsValid (typed p now t) v = add_peer_type-IsValid now t p v
Step-IsValid (untyped p t) v = ground arith
Step-IsValid (heard p now) v = ground arith
Step-IsValid (pinged p q now t e) v = register_incoming_ping-IsValid now t p q e v
Step-IsValid (ponged p now recv_time r seqno) v =
    handle_liveness_pong-IsValid now recv_time r seqno p v
Step-IsValid (pings p hub_id nonce own r now) v =
    send_liveness_ping-IsValid hub_id nonce own r now p v
Step-IsValid (numbers p) v = ground arith
Step-IsValid (registers p now seqno h) v = register_sent_ping-IsValid now seqno p h v

Reach-IsValid : {p q : Peer} → IsValid p → Reach p q → IsValid q
Reach-IsValid v here = v
Reach-IsValid v (next r s) = Step-IsValid s (Reach-IsValid v r)

sent-seqno :
    (hub_id nonce : ℕ) (own : IpEndPoint) (r : Option NodeRange) (now : TimeVal) (p : Peer)
    (ping : LivenessPing)
    → (send_liveness_ping hub_id nonce own r now p).1 ≡ some ping
    → (ping.seqno ≡ p.seqno)
      × ((send_liveness_ping hub_id nonce own r now p).0.seqno ≡ next_seqno p.seqno)
unfolding send_liveness_ping make_ping register_sent_ping
sent-seqno hub_id nonce own none now p ping e = absurd (ground arith)
sent-seqno hub_id nonce own (some r) now p ping e = ground arith

-- When a peer sends a ping after any sequence of its operations, the ping has the peer's number, a
-- byte, and the peer's number afterwards is below 255, which is the number of a pong without a
-- ping; at most 10 pings wait for a pong, and there are at most 21 samples.
pub send_liveness_ping_seqno :
    (start : TimeVal) (a : IpEndPoint) (range : NodeRange) (p : Peer)
    → Reach (new_peer start a range) p
    → (hub_id nonce : ℕ) (own : IpEndPoint) (r : Option NodeRange) (now : TimeVal)
      (ping : LivenessPing)
    → (send_liveness_ping hub_id nonce own r now p).1 ≡ some ping
    → let q = (send_liveness_ping hub_id nonce own r now p).0 in
      (length q.sent_pings ≤ 10)
      × (length q.rtt_samples ≤ 21)
      × (ping.seqno ≡ p.seqno)
      × (ping.seqno < 256)
      × (q.seqno < 255)
send_liveness_ping_seqno start a range p reach hub_id nonce own r now ping e =
    let v = Reach-IsValid (new_peer-IsValid start a range) reach in
    let w = send_liveness_ping-IsValid hub_id nonce own r now p v in
    let (number, after) = sent-seqno hub_id nonce own r now p ping e in
    (
      w.pings,
      w.samples,
      number,
      omega (arith, number, v.seqno),
      omega (arith, after, next_seqno-lt p.seqno),
    )
