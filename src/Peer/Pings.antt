-- ===== src/Peer/Pings.antt =====
-- Pongs matched to pings, and when a peer counts as lost.
use distributed_games.Base.{
  ℕ, ◌*◌, ◌/◌, ◌≤◌, ◌<◌, ◌≡◌, ◌==◌, ◌≢◌, refl, false, some, List, [], ◌∷◌, ◌++◌, length, drop,
  arith, leb, ltb, if◌then◌else◌,
}
use distributed_games.Int32.{to_uint32}
use distributed_games.TimeVal.{TimeVal, sub_msec}
use distributed_games.Address.{IpEndPoint}
use distributed_games.Constraint.{NodeRange}
use distributed_games.Peer.{
  PingInfo, Peer, match_ping, add_sample, update_rtt_estimate, handle_liveness_pong,
  register_sent_ping, send_liveness_ping, next_seqno, get_rtt_estimate, sum, make_ping,
}

-- No ping of this number is waiting for its pong.
abbrev pub IsFresh : ℕ → List PingInfo → Type 0
IsFresh seqno [] = Unit {0}
IsFresh seqno (i ∷ is) = (i.seqno ≢ seqno) × IsFresh seqno is

abbrev pub trimmed : List PingInfo → List PingInfo
trimmed is = if leb 10 (length is) then drop 1 is else is

match_ping_last :
    (now : TimeVal) (seqno : ℕ) (is : List PingInfo)
    → IsFresh seqno is
    → match_ping seqno (is ++ record { time = now; seqno = seqno } ∷ []) ≡ some (now, is)
unfolding match_ping
match_ping_last now seqno [] h = ground arith
match_ping_last now seqno (i ∷ is) h = ground (arith, match_ping_last now seqno is h.1, h.0)

-- A pong to a ping adds the milliseconds between the two behind the samples, of which the oldest
-- goes if there are more than 20, and takes the ping from those that wait. The number of the ping
-- is below 255, and no waiting ping has the same.
pub pong-ping :
    (hub_id nonce : ℕ) (own : IpEndPoint) (r r' : NodeRange) (sent received now : TimeVal)
    (p : Peer)
    → p.seqno < 255
    → IsFresh p.seqno (trimmed p.sent_pings)
    → let q = (send_liveness_ping hub_id nonce own (some r) sent p).0 in
      handle_liveness_pong now received r' p.seqno q ≡ record p {
        range = r';
        last_msg_time = now;
        last_ping_sent = sent;
        seqno = next_seqno p.seqno;
        rtt_samples =
            (if ltb 20 (length p.rtt_samples) then drop 1 p.rtt_samples else p.rtt_samples)
            ++ to_uint32 (sub_msec received sent) ∷ [];
        sent_pings = trimmed p.sent_pings;
      }
unfolding send_liveness_ping handle_liveness_pong register_sent_ping update_rtt_estimate make_ping
    add_sample
pong-ping hub_id nonce own r r' sent received now p h f =
    ground (arith, match_ping_last sent p.seqno (trimmed p.sent_pings) f)

-- If the oldest waiting ping has the number of the new one, the pong to the new one is matched to
-- the old one, and the sample is the time since that. There is room for the new ping.
pub pong_stale :
    (hub_id nonce : ℕ) (own : IpEndPoint) (r r' : NodeRange) (sent received now : TimeVal)
    (p : Peer) (old : PingInfo) (is : List PingInfo)
    → p.seqno < 255
    → p.sent_pings ≡ old ∷ is
    → length is < 9
    → old.seqno ≡ p.seqno
    → let q = (send_liveness_ping hub_id nonce own (some r) sent p).0 in
      (handle_liveness_pong now received r' p.seqno q).rtt_samples
      ≡ add_sample (to_uint32 (sub_msec received old.time)) p.rtt_samples
unfolding send_liveness_ping handle_liveness_pong register_sent_ping update_rtt_estimate match_ping
    make_ping
pong_stale hub_id nonce own r r' sent received now p old is h e l s = ground (arith, e, s)

abbrev pub Within : ℕ → ℕ → List ℕ → Type 0
Within lo hi [] = Unit {0}
Within lo hi (x ∷ xs) = (lo ≤ x) × (x ≤ hi) × Within lo hi xs

sum_bounds :
    (lo hi : ℕ) (xs : List ℕ)
    → Within lo hi xs
    → (length xs * lo ≤ sum xs) × (sum xs ≤ length xs * hi)
unfolding sum
sum_bounds lo hi [] h = omega arith
sum_bounds lo hi (x ∷ xs) h = let ih = sum_bounds lo hi xs h.2 in (grind arith, grind arith)

mean_bounds : (lo hi n s : ℕ) → 0 < n → n * lo ≤ s → s ≤ n * hi → (lo ≤ s / n) × (s / n ≤ hi)
mean_bounds lo hi n s h k l = (grind arith, grind arith)

length-pos : (xs : List ℕ) → xs ≢ [] → 0 < length xs
length-pos [] n = absurd (n refl)
length-pos (x ∷ xs) n = omega arith

-- The estimate lies between the bounds of the samples, if there are any.
pub get_rtt_estimate_bounds :
    (lo hi : ℕ) (p : Peer)
    → p.rtt_samples ≢ []
    → Within lo hi p.rtt_samples
    → (lo ≤ get_rtt_estimate p) × (get_rtt_estimate p ≤ hi)
unfolding get_rtt_estimate
get_rtt_estimate_bounds lo hi p n h =
    let b = sum_bounds lo hi p.rtt_samples h in
    let some_sample : 0 < length p.rtt_samples = length-pos p.rtt_samples n in
    let mean = mean_bounds lo hi (length p.rtt_samples) (sum p.rtt_samples) some_sample b.0 b.1 in
    let e : (length p.rtt_samples == 0) ≡ false = ground arith in rw e mean
